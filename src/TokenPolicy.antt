-- ===== src/TokenPolicy.antt =====
-- inference/token_scheduling.py: which sequences the next iteration prefills or decodes. A decision's
-- reason, a text for logs, is left out.
mod Turns
mod Tests
use gpu_aware_llm_serving_pl.Common.{
  ℕ, ◌≡◌, Bool, true, false, not, ◌&&◌, List, [], ◌∷◌, length, take, ◌==◌, if◌then◌else◌,
}

pub data PolicyName : Type 0 where
  prefill_first decode_first balanced : PolicyName

pub record Resources : Type 0 where
  pub available_slots : ℕ
  pub free_kv_blocks : ℕ
  pub max_batch_size : ℕ

pub record Decision : Type 0 where
  pub prefill_ids : List ℕ
  pub decode_ids : List ℕ

pub record Policy : Type 0 where
  pub name : PolicyName
  pub balanced_decode_turn : Bool

abbrev pub prefills : List ℕ → Decision
prefills ids = record { prefill_ids = ids; decode_ids = [] }

abbrev pub decodes : List ℕ → Decision
decodes ids = record { prefill_ids = []; decode_ids = ids }

abbrev pub is_empty : List ℕ → Bool
is_empty [] = true
is_empty (x ∷ xs) = false

-- The choice from the identifiers that fit a batch; the turn is the one after its flip.
unfoldable pub choose : PolicyName → Bool → List ℕ → List ℕ → Decision
choose prefill_first turn waiting running =
    if is_empty waiting then decodes running else prefills waiting
choose decode_first turn waiting running =
    if is_empty running then prefills waiting else decodes running
choose balanced turn waiting running =
    if turn && not (is_empty running)
    then decodes running
    else if not (is_empty waiting)
    then prefills waiting
    else decodes running

abbrev pub next_turn : PolicyName → Bool → Bool
next_turn balanced turn = not turn
next_turn prefill_first turn = turn
next_turn decode_first turn = turn

-- The arguments are the identifiers of the waiting and of the running sequences.
unfoldable pub select : Policy → List ℕ → List ℕ → Resources → Policy × Decision
unfolding choose
select p waiting running resources =
    let turn = next_turn p.name p.balanced_decode_turn in
    (
      record p { balanced_decode_turn = turn },
      choose p.name turn (take resources.max_batch_size waiting)
          (take resources.max_batch_size running),
    )

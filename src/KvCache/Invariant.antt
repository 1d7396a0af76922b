-- ===== src/KvCache/Invariant.antt =====
-- The invariant of inference/kv_cache.py's allocator, and the steps that its methods are made of.
use gpu_aware_llm_serving_pl.Common.{
  ℕ, ◌+◌, ◌*◌, ◌≤◌, ◌<◌, ◌≡◌, true, false, List, to_nat, length, take, drop, count, count-take-drop,
  length-take, length-drop, Bool, subst, sym, arith,
}
use gpu_aware_llm_serving_pl.Common.Dict.{Dict, lookup, has, size, share, total, IsDict}
use gpu_aware_llm_serving_pl.KvCache.{Allocator, mark_blocks, update_pressure}
use gpu_aware_llm_serving_pl.KvCache.Blocks.{
  ref, BlocksInv, lookup-mark_blocks, mark_blocks-IsDict, size-mark_blocks,
}

-- Free stack, reference counts and block tables agree.
pub record Books (a : Allocator) : Type 0 where
  pub blocks : BlocksInv a
  pub counted : (b : ℕ) → ref b a.references ≡ total (count b) a.owners
  pub tables : (o b : ℕ) → share (count b) (lookup o a.owners) ≤ 1
  pub owners_dict : IsDict a.owners

-- The pressure flag is on above the low watermark only, and off below the high one only.
pub record Hysteresis (a : Allocator) : Type 0 where
  pub on : a.pressure ≡ true → a.low_watermark * a.total_blocks < size a.references * 1000
  pub off : a.pressure ≡ false → size a.references * 1000 < a.high_watermark * a.total_blocks

-- What the constructor checks.
pub record WellSized (a : Allocator) : Type 0 where
  pub some_blocks : 0 < a.total_blocks
  pub some_tokens : 0 < a.block_size_tokens
  pub low_lt_high : a.low_watermark < a.high_watermark

pub record Inv (a : Allocator) : Type 0 where
  pub sizes : WellSized a
  pub books : Books a
  pub flag : Hysteresis a

update_pressure_frame :
    (a : Allocator) → update_pressure a ≡ record a { pressure = (update_pressure a).pressure }
unfolding update_pressure
update_pressure_frame a = ground arith

Books-pressure : (a : Allocator) → Books a → (p : Bool) → Books (record a { pressure = p })
Books-pressure a h p = record {
  blocks = record {
    partition = h.blocks.partition;
    positive = h.blocks.positive;
    references_dict = h.blocks.references_dict;
    sized = h.blocks.sized;
  };
  counted = h.counted;
  tables = h.tables;
  owners_dict = h.owners_dict;
}

mul_lt : (a b t : ℕ) → a < b → 0 < t → a * t < b * t
mul_lt a b t h p = grind arith

update_pressure-Hysteresis : (a : Allocator) → WellSized a → Hysteresis (update_pressure a)
unfolding update_pressure
update_pressure-Hysteresis a w =
    let wide = mul_lt a.low_watermark a.high_watermark a.total_blocks w.low_lt_high w.some_blocks in
    record { on = ground arith; off = ground arith }

-- Whatever the flag was, `_update_pressure` leaves it right for the blocks in use.
pub update_pressure-Inv : (a : Allocator) → WellSized a → Books a → Inv (update_pressure a)
update_pressure-Inv a w h = record {
  sizes = subst WellSized (sym (update_pressure_frame a)) (record {
    some_blocks = w.some_blocks;
    some_tokens = w.some_tokens;
    low_lt_high = w.low_lt_high;
  });
  books =
      subst Books (sym (update_pressure_frame a)) (Books-pressure a h (update_pressure a).pressure);
  flag = update_pressure-Hysteresis a w;
}

module _ (a : Allocator) (n : ℕ) (os : Dict (List ℕ)) (inv : BlocksInv a) where
  -- The blocks that are taken from the free stack stand there once, and are not allocated.
  pub taken_once : (b : ℕ) → count b (take n a.free) + to_nat (has b a.references) ≤ 1
  taken_once b = ground (arith, inv.partition b, count-take-drop b n a.free)

  pub claim-BlocksInv :
      n ≤ length a.free
      → BlocksInv (record a {
        free = drop n a.free;
        owners = os;
        references = mark_blocks (take n a.free) a.references;
      })
  claim-BlocksInv enough = record {
    partition = λ b. ground (
      arith,
      inv.partition b,
      count-take-drop b n a.free,
      lookup-mark_blocks b (take n a.free) a.references,
    );
    positive =
        λ b. ground (arith, inv.positive b, lookup-mark_blocks b (take n a.free) a.references);
    references_dict = mark_blocks-IsDict _ _ inv.references_dict;
    sized = omega (
      arith,
      inv.sized,
      size-mark_blocks (take n a.free) a.references taken_once,
      length-take n a.free,
      length-drop n a.free,
    );
  }

  pub ref-claim :
      (b : ℕ)
      → ref b (mark_blocks (take n a.free) a.references)
        ≡ ref b a.references + count b (take n a.free)
  ref-claim b = ground (arith, taken_once b, lookup-mark_blocks b (take n a.free) a.references)

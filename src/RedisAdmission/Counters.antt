-- ===== src/RedisAdmission/Counters.antt =====
-- What the commands of serving_platform/admission/redis_controller.py do to the counters in the hash.
use gpu_aware_llm_serving_pl.Common.{
  ℕ, ◌+◌, ◌-◌, ◌≤◌, ◌<◌, ◌≡◌, refl, ap, ◌∙◌, subst, true, false, Option, none, some, ◌==◌,
  if◌then◌else◌, ℤ, pos, arith, Bool-cases, inl, inr,
}
use gpu_aware_llm_serving_pl.RedisAdmission.{number_at}
use gpu_aware_llm_serving_pl.RedisAdmission.Commands.{
  Field, is_field, reservation, global_queued, queued, running, tokens, Value, number, Hash, plus,
  neg, plus-neg, exact_limit, is_exact, is_exact_value, number_in, is_number,
}

le_at : (f : ℕ → ℕ) (a u d : ℕ) → d ≤ f a → a ≡ u → d ≤ f u
le_at f a u d l e = subst (λ x. d ≤ f x) e l

module _ {S : Type 0} (h : Hash S) where
  -- The field counts `n`.
  abbrev pub IsCounter : S → Field → ℕ → Type 0
  IsCounter s f n = (is_number (h.hget s f) ≡ true) × (number_at h s f ≡ pos n)

  -- HINCRBY is exact here.
  abbrev CanAdd : S → Field → ℤ → Type 0
  CanAdd s f d =
      (is_number (h.hget s f) ≡ true) × (is_exact (plus (number_in (h.hget s f)) d) ≡ true)

  can_add :
      (s : S) (f : Field) (d n : ℕ) → IsCounter s f n → n + d < exact_limit → CanAdd s f (pos d)
  unfolding plus
  can_add s f d n (a, b) l =
      let fits : is_exact (pos (n + d)) ≡ true = ground (arith, l) in
      (a, ap (λ z. is_exact (plus z (pos d))) b ∙ fits)

  can_sub :
      (s : S) (f : Field) (d n : ℕ) → IsCounter s f n → d ≤ n → n < exact_limit → CanAdd s f (neg d)
  can_sub s f d n (a, b) le l =
      let fits : is_exact (pos (n - d)) ≡ true = ground (arith, l) in
      (a, ap (λ z. is_exact (plus z (neg d))) b ∙ ap is_exact (plus-neg n d le) ∙ fits)

  -- What a command does to a counter.
  counter-hset :
      (s : S) (f g : Field) (v : Value) (n : ℕ)
      → is_exact_value v ≡ true
      → is_field f g ≡ false
      → IsCounter s g n
      → IsCounter (h.hset s f v) g n
  counter-hset s f g v n x e (a, b) =
      let same : h.hget (h.hset s f v) g ≡ h.hget s g = h.hget-hset s f g v x ∙ ground (arith, e) in
      (ap is_number same ∙ a, ap number_in same ∙ b)

  counter-hdel :
      (s : S) (f g : Field) (n : ℕ)
      → is_field f g ≡ false
      → IsCounter s g n
      → IsCounter (h.hdel s f) g n
  counter-hdel s f g n e (a, b) =
      let same : h.hget (h.hdel s f) g ≡ h.hget s g = h.hget-hdel s f g ∙ ground (arith, e) in
      (ap is_number same ∙ a, ap number_in same ∙ b)

  counter-other :
      (s : S) (f g : Field) (d : ℤ) (n : ℕ)
      → CanAdd s f d
      → is_field f g ≡ false
      → IsCounter s g n
      → IsCounter (h.hincrby s f d) g n
  counter-other s f g d n k e (a, b) =
      let same : h.hget (h.hincrby s f d) g ≡ h.hget s g =
        h.hget-hincrby s f g d k.0 k.1 ∙ ground (arith, e) in
      (ap is_number same ∙ a, ap number_in same ∙ b)

  -- A counter of one kind, where the field of one tenant is changed.
  counter-add :
      (s : S) (f g : Field) (d n : ℕ)
      → CanAdd s f (pos d)
      → IsCounter s g n
      → IsCounter (h.hincrby s f (pos d)) g (if is_field f g then n + d else n)
  unfolding plus
  counter-add s f g d n k (a, b) = elim (Bool-cases (is_field f g)) [
    | inl e ↦
        let new : h.hget (h.hincrby s f (pos d)) g
            ≡ some (number (plus (number_at h s g) (pos d))) =
          h.hget-hincrby s f g (pos d) k.0 k.1 ∙ ground (arith, e) in
        let sum : plus (number_at h s g) (pos d) ≡ pos (n + d) = ap (λ z. plus z (pos d)) b in
        rw e (ap is_number new, ap number_in new ∙ sum)
    | inr e ↦ rw e (counter-other s f g (pos d) n k e (a, b))
  ]

  counter-sub :
      (s : S) (f g : Field) (d n : ℕ)
      → CanAdd s f (neg d)
      → (is_field f g ≡ true → d ≤ n)
      → IsCounter s g n
      → IsCounter (h.hincrby s f (neg d)) g (if is_field f g then n - d else n)
  counter-sub s f g d n k fits (a, b) = elim (Bool-cases (is_field f g)) [
    | inl e ↦
        let new : h.hget (h.hincrby s f (neg d)) g
            ≡ some (number (plus (number_at h s g) (neg d))) =
          h.hget-hincrby s f g (neg d) k.0 k.1 ∙ ground (arith, e) in
        let difference : plus (number_at h s g) (neg d) ≡ pos (n - d) =
          ap (λ z. plus z (neg d)) b ∙ plus-neg n d (fits e) in
        rw e (ap is_number new, ap number_in new ∙ difference)
    | inr e ↦ rw e (counter-other s f g (neg d) n k e (a, b))
  ]

  -- What a hash holds: the global count, the counters by tenant, and what is saved for each reservation.
  pub record Holds (s : S) (g : ℕ) (q r t : ℕ → ℕ) (v : ℕ → Option Value) : Type 0 where
    pub global : IsCounter s global_queued g
    pub queues : (u : ℕ) → IsCounter s (queued u) (q u)
    pub runs : (u : ℕ) → IsCounter s (running u) (r u)
    pub quotas : (u : ℕ) → IsCounter s (tokens u) (t u)
    pub saved : (i : ℕ) → h.hget s (reservation i) ≡ v i

module _ {S : Type 0} (h : Hash S) {s : S} {g : ℕ} {q r t : ℕ → ℕ} {v : ℕ → Option Value} where
  pub add_global :
      (d : ℕ)
      → g + d < exact_limit
      → Holds h s g q r t v
      → Holds h (h.hincrby s global_queued (pos d)) (g + d) q r t v
  add_global d l c =
      let k = can_add h s global_queued d g c.global l in
      record {
        global = counter-add h s global_queued global_queued d g k c.global;
        queues = λ u. counter-other h s global_queued (queued u) (pos d) (q u) k refl (c.queues u);
        runs = λ u. counter-other h s global_queued (running u) (pos d) (r u) k refl (c.runs u);
        quotas = λ u. counter-other h s global_queued (tokens u) (pos d) (t u) k refl (c.quotas u);
        saved = λ i. h.hget-hincrby s global_queued (reservation i) (pos d) k.0 k.1 ∙ c.saved i;
      }

  pub add_queued :
      (a : ℕ) (d : ℕ)
      → q a + d < exact_limit
      → Holds h s g q r t v
      → Holds h (h.hincrby s (queued a) (pos d)) g (λ u. if a == u then q u + d else q u) r t v
  add_queued a d l c =
      let k = can_add h s (queued a) d (q a) (c.queues a) l in
      record {
        global = counter-other h s (queued a) global_queued (pos d) g k refl c.global;
        queues = λ u. counter-add h s (queued a) (queued u) d (q u) k (c.queues u);
        runs = λ u. counter-other h s (queued a) (running u) (pos d) (r u) k refl (c.runs u);
        quotas = λ u. counter-other h s (queued a) (tokens u) (pos d) (t u) k refl (c.quotas u);
        saved = λ i. h.hget-hincrby s (queued a) (reservation i) (pos d) k.0 k.1 ∙ c.saved i;
      }

  pub add_running :
      (a : ℕ) (d : ℕ)
      → r a + d < exact_limit
      → Holds h s g q r t v
      → Holds h (h.hincrby s (running a) (pos d)) g q (λ u. if a == u then r u + d else r u) t v
  add_running a d l c =
      let k = can_add h s (running a) d (r a) (c.runs a) l in
      record {
        global = counter-other h s (running a) global_queued (pos d) g k refl c.global;
        queues = λ u. counter-other h s (running a) (queued u) (pos d) (q u) k refl (c.queues u);
        runs = λ u. counter-add h s (running a) (running u) d (r u) k (c.runs u);
        quotas = λ u. counter-other h s (running a) (tokens u) (pos d) (t u) k refl (c.quotas u);
        saved = λ i. h.hget-hincrby s (running a) (reservation i) (pos d) k.0 k.1 ∙ c.saved i;
      }

  pub add_tokens :
      (a : ℕ) (d : ℕ)
      → t a + d < exact_limit
      → Holds h s g q r t v
      → Holds h (h.hincrby s (tokens a) (pos d)) g q r (λ u. if a == u then t u + d else t u) v
  add_tokens a d l c =
      let k = can_add h s (tokens a) d (t a) (c.quotas a) l in
      record {
        global = counter-other h s (tokens a) global_queued (pos d) g k refl c.global;
        queues = λ u. counter-other h s (tokens a) (queued u) (pos d) (q u) k refl (c.queues u);
        runs = λ u. counter-other h s (tokens a) (running u) (pos d) (r u) k refl (c.runs u);
        quotas = λ u. counter-add h s (tokens a) (tokens u) d (t u) k (c.quotas u);
        saved = λ i. h.hget-hincrby s (tokens a) (reservation i) (pos d) k.0 k.1 ∙ c.saved i;
      }

  pub sub_global :
      (d : ℕ)
      → d ≤ g
      → g < exact_limit
      → Holds h s g q r t v
      → Holds h (h.hincrby s global_queued (neg d)) (g - d) q r t v
  sub_global d l m c =
      let k = can_sub h s global_queued d g c.global l m in
      record {
        global = counter-sub h s global_queued global_queued d g k (λ e. l) c.global;
        queues = λ u. counter-other h s global_queued (queued u) (neg d) (q u) k refl (c.queues u);
        runs = λ u. counter-other h s global_queued (running u) (neg d) (r u) k refl (c.runs u);
        quotas = λ u. counter-other h s global_queued (tokens u) (neg d) (t u) k refl (c.quotas u);
        saved = λ i. h.hget-hincrby s global_queued (reservation i) (neg d) k.0 k.1 ∙ c.saved i;
      }

  pub sub_queued :
      (a : ℕ) (d : ℕ)
      → d ≤ q a
      → q a < exact_limit
      → Holds h s g q r t v
      → Holds h (h.hincrby s (queued a) (neg d)) g (λ u. if a == u then q u - d else q u) r t v
  sub_queued a d l m c =
      let k = can_sub h s (queued a) d (q a) (c.queues a) l m in
      record {
        global = counter-other h s (queued a) global_queued (neg d) g k refl c.global;
        queues = λ u.
            counter-sub h s (queued a) (queued u) d (q u) k (λ e. le_at q a u d l (ground arith))
              (c.queues u);
        runs = λ u. counter-other h s (queued a) (running u) (neg d) (r u) k refl (c.runs u);
        quotas = λ u. counter-other h s (queued a) (tokens u) (neg d) (t u) k refl (c.quotas u);
        saved = λ i. h.hget-hincrby s (queued a) (reservation i) (neg d) k.0 k.1 ∙ c.saved i;
      }

  pub sub_running :
      (a : ℕ) (d : ℕ)
      → d ≤ r a
      → r a < exact_limit
      → Holds h s g q r t v
      → Holds h (h.hincrby s (running a) (neg d)) g q (λ u. if a == u then r u - d else r u) t v
  sub_running a d l m c =
      let k = can_sub h s (running a) d (r a) (c.runs a) l m in
      record {
        global = counter-other h s (running a) global_queued (neg d) g k refl c.global;
        queues = λ u. counter-other h s (running a) (queued u) (neg d) (q u) k refl (c.queues u);
        runs = λ u.
            counter-sub h s (running a) (running u) d (r u) k (λ e. le_at r a u d l (ground arith))
              (c.runs u);
        quotas = λ u. counter-other h s (running a) (tokens u) (neg d) (t u) k refl (c.quotas u);
        saved = λ i. h.hget-hincrby s (running a) (reservation i) (neg d) k.0 k.1 ∙ c.saved i;
      }

  pub sub_tokens :
      (a : ℕ) (d : ℕ)
      → d ≤ t a
      → t a < exact_limit
      → Holds h s g q r t v
      → Holds h (h.hincrby s (tokens a) (neg d)) g q r (λ u. if a == u then t u - d else t u) v
  sub_tokens a d l m c =
      let k = can_sub h s (tokens a) d (t a) (c.quotas a) l m in
      record {
        global = counter-other h s (tokens a) global_queued (neg d) g k refl c.global;
        queues = λ u. counter-other h s (tokens a) (queued u) (neg d) (q u) k refl (c.queues u);
        runs = λ u. counter-other h s (tokens a) (running u) (neg d) (r u) k refl (c.runs u);
        quotas = λ u.
            counter-sub h s (tokens a) (tokens u) d (t u) k (λ e. le_at t a u d l (ground arith))
              (c.quotas u);
        saved = λ i. h.hget-hincrby s (tokens a) (reservation i) (neg d) k.0 k.1 ∙ c.saved i;
      }

  pub set_reservation :
      (i : ℕ) (x : Value)
      → is_exact_value x ≡ true
      → Holds h s g q r t v
      → Holds h (h.hset s (reservation i) x) g q r t (λ j. if i == j then some x else v j)
  set_reservation i x fits c = record {
    global = counter-hset h s (reservation i) global_queued x g fits refl c.global;
    queues = λ u. counter-hset h s (reservation i) (queued u) x (q u) fits refl (c.queues u);
    runs = λ u. counter-hset h s (reservation i) (running u) x (r u) fits refl (c.runs u);
    quotas = λ u. counter-hset h s (reservation i) (tokens u) x (t u) fits refl (c.quotas u);
    saved = λ j.
        h.hget-hset s (reservation i) (reservation j) x fits
        ∙ ap (λ o. if i == j then some x else o) (c.saved j);
  }

  pub del_reservation :
      (i : ℕ)
      → Holds h s g q r t v
      → Holds h (h.hdel s (reservation i)) g q r t (λ j. if i == j then none else v j)
  del_reservation i c = record {
    global = counter-hdel h s (reservation i) global_queued g refl c.global;
    queues = λ u. counter-hdel h s (reservation i) (queued u) (q u) refl (c.queues u);
    runs = λ u. counter-hdel h s (reservation i) (running u) (r u) refl (c.runs u);
    quotas = λ u. counter-hdel h s (reservation i) (tokens u) (t u) refl (c.quotas u);
    saved = λ j.
        h.hget-hdel s (reservation i) (reservation j)
        ∙ ap (λ o. if i == j then none else o) (c.saved j);
  }

-- The same contents, told otherwise.
pub same-Holds :
    {S : Type 0} (h : Hash S) {s : S} {g g' : ℕ} {q q' r r' t t' : ℕ → ℕ} {v v' : ℕ → Option Value}
    → Holds h s g q r t v
    → g ≡ g'
    → ((u : ℕ) → q u ≡ q' u)
    → ((u : ℕ) → r u ≡ r' u)
    → ((u : ℕ) → t u ≡ t' u)
    → ((i : ℕ) → v i ≡ v' i)
    → Holds h s g' q' r' t' v'
same-Holds h {s} {g} {g'} {q} {q'} {r} {r'} {t} {t'} {v} {v'} c eg eq er et ev = record {
  global = subst (IsCounter h s global_queued) eg c.global;
  queues = λ u. subst (IsCounter h s (queued u)) (eq u) (c.queues u);
  runs = λ u. subst (IsCounter h s (running u)) (er u) (c.runs u);
  quotas = λ u. subst (IsCounter h s (tokens u)) (et u) (c.quotas u);
  saved = λ i. c.saved i ∙ ev i;
}

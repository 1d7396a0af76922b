-- ===== src/RedisAdmission/Commands.antt =====
-- The Redis hash that serving_platform/admission/redis_controller.py keeps its counters in: the commands it uses, with
-- what their documentation says of them.
use gpu_aware_llm_serving_pl.Common.{
  ℕ, zero, suc, ◌+◌, ◌-◌, ◌≤◌, ◌≡◌, Bool, true, false, Option, none, some, ◌==◌, ◌&&◌, ltb,
  if◌then◌else◌, ℤ, pos, negsuc, arith,
}

pub data Field : Type 0 where
  fingerprint global_queued : Field
  reservation queued running tokens : ℕ → Field

abbrev pub is_field : Field → Field → Bool
is_field fingerprint fingerprint = true
is_field global_queued global_queued = true
is_field (reservation a) (reservation b) = a == b
is_field (queued a) (queued b) = a == b
is_field (running a) (running b) = a == b
is_field (tokens a) (tokens b) = a == b
is_field _ _ = false

-- The JSON object of a reservation.
pub record Encoded : Type 0 where
  pub tenant : ℕ
  pub tokens : ℕ
  pub running : Bool
  pub concurrency_limit : ℕ

pub data Value : Type 0 where
  digest : ℕ → Value
  number : ℤ → Value
  encoded : Encoded → Value

-- The difference of two natural numbers.
unfoldable pub diff : ℕ → ℕ → ℤ
diff a b = if ltb a b then negsuc (b - a - 1) else pos (a - b)

unfoldable pub plus : ℤ → ℤ → ℤ
unfolding diff
plus (pos a) (pos b) = pos (a + b)
plus (pos a) (negsuc b) = diff a (suc b)
plus (negsuc a) (pos b) = diff b (suc a)
plus (negsuc a) (negsuc b) = negsuc (suc (a + b))

abbrev pub neg : ℕ → ℤ
neg zero = pos zero
neg (suc n) = negsuc n

pub plus-neg : (a b : ℕ) → b ≤ a → plus (pos a) (neg b) ≡ pos (a - b)
unfolding plus diff
plus-neg a zero l = ground arith
plus-neg a (suc b) l = ground arith

-- n < k
abbrev pub is_below : ℤ → ℕ → Bool
is_below (pos n) k = ltb n k
is_below (negsuc n) k = true

-- `tonumber(value or '0')`; the scripts read numbers from the counters only.
abbrev pub number_in : Option Value → ℤ
number_in (some (number n)) = n
number_in _ = pos 0

abbrev pub is_number : Option Value → Bool
is_number none = true
is_number (some (number n)) = true
is_number _ = false

-- Numbers below 10^14 in size are exact in all that handles them: HINCRBY counts in 64 bits, a number of Lua is a
-- double, exact up to 2^53, and its JSON encoder writes 14 digits.
abbrev pub exact_limit : ℕ
exact_limit = 100000000000000

abbrev pub is_exact : ℤ → Bool
is_exact (pos n) = ltb n exact_limit
is_exact (negsuc n) = ltb n exact_limit

abbrev pub is_exact_value : Value → Bool
is_exact_value (digest d) = true
is_exact_value (number n) = is_exact n
is_exact_value (encoded e) = ltb e.tokens exact_limit && ltb e.concurrency_limit exact_limit

-- The commands HGET, HSET, HINCRBY and HDEL on one hash, where what they store is exact. HINCRBY counts a missing
-- field as 0, and is used on numbers.
pub record Hash (S : Type 0) : Type 0 where
  pub hget : S → Field → Option Value
  pub hset : S → Field → Value → S
  pub hincrby : S → Field → ℤ → S
  pub hdel : S → Field → S
  pub hget-hset :
      (s : S) (f g : Field) (v : Value)
      → is_exact_value v ≡ true
      → hget (hset s f v) g ≡ (if is_field f g then some v else hget s g)
  pub hget-hincrby :
      (s : S) (f g : Field) (d : ℤ)
      → is_number (hget s f) ≡ true
      → is_exact (plus (number_in (hget s f)) d) ≡ true
      → hget (hincrby s f d) g
        ≡ (if is_field f g then some (number (plus (number_in (hget s g)) d)) else hget s g)
  pub hget-hdel :
      (s : S) (f g : Field) → hget (hdel s f) g ≡ (if is_field f g then none else hget s g)

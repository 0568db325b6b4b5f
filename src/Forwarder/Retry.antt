-- ===== src/Forwarder/Retry.antt =====
-- The bounds of the wait between attempts of internal/forwarder/retry.go.
use dmz_collector.Base.{
  ℕ, ◌*◌, ◌≤◌, ◌<◌, ◌%◌, ◌^◌, ◌≡◌, ◌∙◌, ap, min, arith, ltb, lt→ltb, false, if◌then◌else◌,
}
use dmz_collector.Forwarder.{pos, int64, capped, half_minute, backoff}

abbrev pub last_attempt : ℕ
last_attempt = 214_748

int64_small : (n : ℕ) → n < 2 ^ 63 → int64 n ≡ pos n
int64_small n h = let e : n % 2 ^ 64 ≡ n = omega arith in rw e (rw (lt→ltb n (2 ^ 63) h))

square_le : (a b : ℕ) → a ≤ b → a * a ≤ b * b
square_le a b h = grind arith

wait : ℕ → ℕ
wait d = if ltb half_minute d then half_minute else d

capped-wait : (d : ℕ) → capped (pos d) ≡ pos (wait d)
unfolding wait
capped-wait d = ground arith

backoff-wait :
    (attempt : ℕ)
    → 1 ≤ attempt
    → attempt ≤ last_attempt
    → backoff attempt ≡ pos (wait (attempt * attempt * 200_000_000))
unfolding backoff
backoff-wait attempt low high =
    let first : ltb attempt 1 ≡ false = ground arith in
    let big = square_le attempt last_attempt high in
    rw first (
      ap capped (int64_small (attempt * attempt * 200_000_000) (omega (arith, big)))
      ∙ capped-wait (attempt * attempt * 200_000_000))

-- From attempt 1 up to attempt 214748 the wait is the square of the attempt in steps of 200 ms, or
-- 30 s where that is more, and so never under 200 ms and never over 30 s.
pub backoff_bounds :
    (attempt : ℕ)
    → 1 ≤ attempt
    → attempt ≤ last_attempt
    → (d : ℕ) × (backoff attempt ≡ pos d)
      × (200_000_000 ≤ d)
      × (d ≤ 30_000_000_000)
      × (d ≡ min (attempt * attempt * 200_000_000) 30_000_000_000)
unfolding wait
backoff_bounds attempt low high =
    let small = square_le 1 attempt low in
    (
      wait (attempt * attempt * 200_000_000),
      backoff-wait attempt low high,
      ground (arith, small),
      ground arith,
      ground arith,
    )

-- ===== src/Devnet/Backoff.antt =====
-- crates/sync/devnet/src/tracker: the pauses of `wait`, and the range of the backfill.
use ethui.Common.{
  ℕ, zero, suc, ◌+◌, ◌-◌, ◌/◌, ◌^◌, ◌≤◌, ◌<◌, min, ◌≡◌, refl, Bool-cases, inl, inr, true, false,
  Option, none, some, ◌⊎◌, ap, ◌∙◌, ◌==◌, nat_Same, nat_same_iff, List, [], ◌∷◌, arith, All,
  All-mono, Option-cases, ltb,
}
use native.Mathlib.Nat.{mod-lt}
use mathlib.Core.Path.{subst}
use ethui.Devnet.{
  SyncInfo, Header, delay, random_jitter, Turn, quit_first, available, unavailable, wait, numbers,
  range, blocks, start_block, backfill_http, backfill_ws, Provider, http, ws, backfill_blocks,
}

capped : (n : ℕ) → 1 ≤ n → (1 ≤ min n 6) × (min n 6 ≤ 6)
capped n h = (omega arith, omega arith)

power : (m : ℕ) → 1 ≤ m → m ≤ 6 → (2 ≤ 2 ^ m) × (2 ^ m ≤ 64)
power zero h k = absurd (omega (arith, h))
power (suc zero) h k = (omega arith, omega arith)
power (suc (suc zero)) h k = (omega arith, omega arith)
power (suc (suc (suc zero))) h k = (omega arith, omega arith)
power (suc (suc (suc (suc zero)))) h k = (omega arith, omega arith)
power (suc (suc (suc (suc (suc zero))))) h k = (omega arith, omega arith)
power (suc (suc (suc (suc (suc (suc zero)))))) h k = (omega arith, omega arith)
power (suc (suc (suc (suc (suc (suc (suc m))))))) h k = absurd (omega (arith, k))

delay-bounds : (n : ℕ) → 1 ≤ n → (200 ≤ delay n) × (delay n ≤ 6400)
unfolding delay
delay-bounds n h =
    let c = capped n h in
    let p = power (min n 6) c.0 c.1 in (omega (arith, p.0), omega (arith, p.1))

pause-bounds :
    (n hash : ℕ)
    → 1 ≤ n
    → let p = delay n + random_jitter hash (delay n / 4) in (200 ≤ p) × (p < 8000)
unfolding random_jitter
pause-bounds n hash h =
    let d = delay-bounds n h in
    let j = mod-lt hash {m = delay n / 4} (omega (arith, d.0)) in
    (omega (arith, d.0), omega (arith, d.1, j))

pauses-bounds :
    (retry_count : ℕ) (turns : List Turn)
    → All (λ p. (200 ≤ p) × (p < 8000)) (wait retry_count turns).1
unfolding wait
pauses-bounds retry_count [] = tt
pauses-bounds retry_count (quit_first ∷ turns) = tt
pauses-bounds retry_count (available info ∷ turns) = tt
pauses-bounds retry_count (unavailable hash true ∷ turns) =
    (pause-bounds (retry_count + 1) hash (omega arith), tt)
pauses-bounds retry_count (unavailable hash false ∷ turns) =
    (pause-bounds (retry_count + 1) hash (omega arith), pauses-bounds (retry_count + 1) turns)

-- However often the node does not answer, each pause of `wait` is at least 200 and less than 8000
-- milliseconds.
pub wait-bounds : (turns : List Turn) → All (λ p. (200 ≤ p) × (p < 8000)) (wait 0 turns).1
wait-bounds turns = pauses-bounds 0 turns

empty_range : (start end : ℕ) → ltb end start ≡ true → range start end ≡ []
empty_range start end past = rw (empty_count (ground (arith, past))) refl
  where
    empty_count : end < start → (end + 1) - start ≡ 0
    empty_count h = omega (arith, h)

-- The two providers backfill the same blocks, although only the one over HTTP looks whether the range is
-- empty.
pub backfill_http-backfill_ws :
    (by_number : ℕ → Option Header) (info : SyncInfo)
    → backfill_http by_number info ≡ backfill_ws by_number info
unfolding backfill_http backfill_ws
backfill_http-backfill_ws by_number info = elim (Bool-cases (ltb info.number (start_block info))) [
  | inl past ↦ rw (past, empty_range (start_block info) info.number past) refl
  | inr within ↦ rw within refl
]

-- Past the fork, or not zero where there is no fork.
abbrev pub IsPast : Option ℕ → ℕ → Type 0
IsPast none n = 1 ≤ n
IsPast (some fork) n = fork < n

-- What the node gives for a number past the fork and up to the newest one.
abbrev pub InRange : (ℕ → Option Header) → SyncInfo → Header → Type 0
InRange by_number info h =
    (n : ℕ) × IsPast info.fork_block_number n × (n ≤ info.number) × (by_number n ≡ some h)

abbrev pub Elem : Header → List Header → Type 0
Elem h [] = ⊥
Elem h (x ∷ xs) = (h ≡ x) ⊎ Elem h xs

start_block-IsPast :
    (info : SyncInfo) (n : ℕ) → start_block info ≤ n → IsPast info.fork_block_number n
start_block-IsPast info n h = of_fork info.fork_block_number refl
  where
    of_fork : (o : Option ℕ) → info.fork_block_number ≡ o → IsPast o n
    of_fork none e = ground (arith, e, h)
    of_fork (some fork) e = ground (arith, e, h)

IsPast-start_block :
    (info : SyncInfo) (n : ℕ) → IsPast info.fork_block_number n → start_block info ≤ n
IsPast-start_block info n h = of_fork info.fork_block_number refl
  where
    of_fork : (o : Option ℕ) → info.fork_block_number ≡ o → start_block info ≤ n
    of_fork none e = let k : IsPast none n = subst (λ o. IsPast o n) e h in ground (arith, e, k)
    of_fork (some fork) e =
        let k : IsPast (some fork) n = subst (λ o. IsPast o n) e h in ground (arith, e, k)

abbrev Between : (ℕ → Option Header) → ℕ → ℕ → Header → Type 0
Between by_number start end h = (n : ℕ) × (start ≤ n) × (n < end) × (by_number n ≡ some h)

blocks-numbers :
    (by_number : ℕ → Option Header) (start count : ℕ)
    → All (Between by_number start (start + count)) (blocks by_number (numbers start count))
blocks-numbers by_number start zero = tt
blocks-numbers by_number start (suc count) =
    let later =
      All-mono {P = Between by_number (start + 1) (start + 1 + count)}
        {Q = Between by_number start (start + suc count)}
        (λ h b. (b.0, omega (arith, b.1), omega (arith, b.2), b.3))
        (blocks by_number (numbers (start + 1) count))
        (blocks-numbers by_number (start + 1) count) in
    elim (Option-cases (by_number start)) [
      | inl missing ↦ rw missing later
      | inr (h, e) ↦ rw e ((start, omega arith, omega arith, e), later)
    ]

backfill_ws-InRange :
    (by_number : ℕ → Option Header) (info : SyncInfo)
    → All (InRange by_number info) (backfill_ws by_number info)
unfolding backfill_ws
backfill_ws-InRange by_number info =
    let start = start_block info in
    let count = (info.number + 1) - start in
    All-mono {P = Between by_number start (start + count)} {Q = InRange by_number info}
      (λ h b. (b.0, start_block-IsPast info b.0 b.1, omega (arith, b.1, b.2), b.3))
      (blocks by_number (numbers start count)) (blocks-numbers by_number start count)

blocks-Elem :
    (by_number : ℕ → Option Header) (n start count : ℕ) (h : Header)
    → start ≤ n
    → n < start + count
    → by_number n ≡ some h
    → Elem h (blocks by_number (numbers start count))
blocks-Elem by_number n start zero h low high e = absurd (omega (arith, low, high))
blocks-Elem by_number n start (suc count) h low high e = elim (Bool-cases (start == n)) [
  | inl here ↦
      let first : by_number start ≡ some h = ap by_number ((nat_same_iff start n).0 here) ∙ e in
      rw first (inl refl)
  | inr later ↦ elim (Option-cases (by_number start)) [
    | inl missing ↦
        rw missing
          (blocks-Elem by_number n (start + 1) count h (past later) (omega (arith, high)) e)
    | inr (x, found) ↦
        rw found
          (inr (blocks-Elem by_number n (start + 1) count h (past later) (omega (arith, high)) e))
  ]
]
  where
    past : (start == n) ≡ false → start + 1 ≤ n
    past later = ground (arith, later, low, nat_same_iff start n)

backfill_ws-Elem :
    (by_number : ℕ → Option Header) (info : SyncInfo) (h : Header)
    → InRange by_number info h
    → Elem h (backfill_ws by_number info)
unfolding backfill_ws
backfill_ws-Elem by_number info h (n, past, up_to, e) =
    let low : start_block info ≤ n = IsPast-start_block info n past in
    blocks-Elem by_number n (start_block info) ((info.number + 1) - start_block info) h low
      (omega (arith, low, up_to)) e

-- Whichever provider the network has, the blocks that are backfilled are what the node gives for the numbers
-- that come after the fork, or are not zero where there is no fork, and are at most the newest one: nothing
-- else is backfilled, and everything that the node gives for such a number is.
pub backfill_blocks-InRange :
    (provider : Provider) (by_number : ℕ → Option Header) (info : SyncInfo)
    → All (InRange by_number info) (backfill_blocks provider by_number info)
      × ((h : Header) → InRange by_number info h → Elem h (backfill_blocks provider by_number info))
unfolding backfill_blocks
backfill_blocks-InRange ws by_number info =
    (backfill_ws-InRange by_number info, backfill_ws-Elem by_number info)
backfill_blocks-InRange http by_number info =
    rw (backfill_http-backfill_ws by_number info)
      (backfill_ws-InRange by_number info, backfill_ws-Elem by_number info)

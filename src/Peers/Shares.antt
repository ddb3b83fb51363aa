-- ===== src/Peers/Shares.antt =====
-- crates/ws/src/peers.rs: how a message is put into the channels of the chosen peers.
use ethui.Common.{
  ℕ, Bool, true, false, ◌≡◌, ◌⊎◌, inl, inr, refl, ap, ◌∙◌, Option, none, some, List, [], ◌∷◌, ◌++◌,
  All, filter, arith, ◌==◌, nat_Same, text_Same, nat_same_iff, Option-cases, Bool-cases,
  if◌then◌else◌,
}
use mathlib.Core.List.{append-nil}
use ethui.Common.Dict
use ethui.Common.Dict.{
  Dict, values, Distinct, insert-Distinct, remove-Distinct, All-insert, All-remove, All-get,
}
use ethui.Common.Json.{Json}
use ethui.Peers.{Peer, Conn, push, push_all}
use ethui.Peers.Tended.{push_lost, push_taken}

-- What is put into the channel of the peer at a key, if it is chosen.
abbrev pub share : (Peer → Bool) → Json → Option Peer → List Json
share chosen msg none = []
share chosen msg (some p) = if chosen p then msg ∷ [] else []

-- A peer stands under its socket.
abbrev pub IsKeyed : ℕ × Peer → Type 0
IsKeyed (k, p) = p.socket ≡ k

get-push :
    (msg : Json) (p : Peer) (conns : Dict ℕ Conn) (k : ℕ) (c : Conn)
    → Dict.get conns k ≡ some c
    → Dict.get (push msg p conns) k
      ≡ some (if p.socket == k then record c { waiting = c.waiting ++ msg ∷ [] } else c)
get-push msg p conns k c e = elim (Bool-cases (p.socket == k)) [
  | inl here ↦
      let found : Dict.get conns p.socket ≡ some c =
        ap (Dict.get conns) ((nat_same_iff p.socket k).0 here) ∙ e in
      ground (
        arith,
        here,
        push_taken msg p conns c found,
        Dict.get-insert conns p.socket k (record c { waiting = c.waiting ++ msg ∷ [] }),
      )
  | inr other ↦ elim (Option-cases (Dict.get conns p.socket)) [
    | inl lost ↦ ground (arith, other, e, push_lost msg p conns lost)
    | inr (d, found) ↦ ground (
      arith,
      other,
      e,
      push_taken msg p conns d found,
      Dict.get-insert conns p.socket k (record d { waiting = d.waiting ++ msg ∷ [] }),
    )
  ]
]

get_nil : (k : ℕ) → Dict.get {V = Peer} [] k ≡ none
unfolding Dict.get
get_nil k = refl

get-cons :
    (j k : ℕ) (p : Peer) (d : Dict ℕ Peer)
    → Dict.get ((j, p) ∷ d) k ≡ (if j == k then some p else Dict.get d k)
unfolding Dict.get
get-cons j k p d = refl

module _ (chosen : Peer → Bool) (msg : Json) where
  -- What is claimed of the peers of a dictionary.
  abbrev pub Shares : Dict ℕ Peer → ℕ → Type 0
  Shares d k =
      (conns : Dict ℕ Conn) (c : Conn)
      → Dict.get conns k ≡ some c
      → Dict.get (push_all msg (filter chosen (values d)) conns) k
        ≡ some (record c { waiting = c.waiting ++ share chosen msg (Dict.get d k) })

  Shares-none : (k : ℕ) → Shares [] k
  unfolding push_all
  Shares-none k conns c e = ground (arith, e, append-nil c.waiting, get_nil k)

  Shares-cons :
      (j k : ℕ) (p : Peer) (d : Dict ℕ Peer)
      → Dict.get d j ≡ none
      → p.socket ≡ j
      → Shares d k
      → Shares ((j, p) ∷ d) k
  unfolding push_all
  Shares-cons j k p d new q later conns c e = of_cases (Bool-cases (chosen p)) (Bool-cases (j == k))
    where
      of_cases :
          ((chosen p ≡ true) ⊎ (chosen p ≡ false))
          → ((j == k) ≡ true) ⊎ ((j == k) ≡ false)
          → Dict.get (push_all msg (filter chosen (values ((j, p) ∷ d))) conns) k
            ≡ some (record c { waiting = c.waiting ++ share chosen msg (Dict.get ((j, p) ∷ d) k) })
      of_cases (inr no_share) (inl here) =
          ground (arith, no_share, here, get-cons j k p d, later conns c e, new, nat_same_iff j k)
      of_cases (inr no_share) (inr other) =
          ground (arith, no_share, other, get-cons j k p d, later conns c e)
      of_cases (inl chosen_p) (inl here) =
          let c' : Conn = record c { waiting = c.waiting ++ msg ∷ [] } in
          let there : (p.socket == k) ≡ true =
            (nat_same_iff p.socket k).1 (q ∙ (nat_same_iff j k).0 here) in
          let after : Dict.get (push msg p conns) k ≡ some c' =
            ground (arith, there, get-push msg p conns k c e) in
          ground (
            arith,
            chosen_p,
            here,
            get-cons j k p d,
            later (push msg p conns) c' after,
            new,
            nat_same_iff j k,
            append-nil (c.waiting ++ msg ∷ []),
          )
      of_cases (inl chosen_p) (inr other) =
          let there : (p.socket == k) ≡ false = ap (λ (x : ℕ). x == k) q ∙ other in
          let after : Dict.get (push msg p conns) k ≡ some c =
            ground (arith, there, get-push msg p conns k c e) in
          ground (arith, chosen_p, other, get-cons j k p d, later (push msg p conns) c after)

  -- A message is put once into the channel of each chosen peer, and into no other.
  pub get-push_all : (d : Dict ℕ Peer) (k : ℕ) → Distinct d → All IsKeyed d → Shares d k
  get-push_all [] k h u = Shares-none k
  get-push_all ((j, p) ∷ d) k (new, h) (q, u) = Shares-cons j k p d new q (get-push_all d k h u)

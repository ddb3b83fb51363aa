-- ===== src/Peers/Domains.antt =====
-- crates/ws/src/peers.rs: the peers by their domains.
use ethui.Common.{
  String, ◌&&◌, ◌≡◌, inl, inr, refl, ◌∙◌, Option, none, some, List, [], ◌∷◌, ◌++◌, filter, arith,
  ◌==◌, text_Same, eq_iff, Bool-cases, if◌then◌else◌,
}
use mathlib.Core.List.{append_assoc, append-nil}
use ethui.Common.Dict
use ethui.Common.Dict.{Dict, values}
use ethui.Peers.{add_to, Peer, Env, World, domain, by_domain_from, by_domain}

module _ {Request : Type 0} (env : Env Request) where
  -- The key of a peer, where one without a domain is under the empty text.
  abbrev pub key_of : Peer → String
  key_of p = elim (domain env p) [ none ↦ "" | some d ↦ d ]

  -- The peers that are alive and have the domain, in the order of the table.
  abbrev pub alive_at : String → List Peer → List Peer
  alive_at d peers = filter (λ p. p.alive && (key_of p == d)) peers

  -- The entry of a domain, if there is any.
  abbrev pub entry : List Peer → Option (List Peer)
  entry [] = none
  entry (p ∷ ps) = some (p ∷ ps)

  entry-snoc : (xs : List Peer) (p : Peer) → entry (xs ++ p ∷ []) ≡ some (xs ++ p ∷ [])
  entry-snoc [] p = refl
  entry-snoc (x ∷ xs) p = refl

  listed :
      (xs : List Peer) → (elim (entry xs) as (λ o. List Peer) [ none ↦ [] | some ps ↦ ps ]) ≡ xs
  listed [] = refl
  listed (x ∷ xs) = refl

  -- One peer more.
  entry-add_to :
      (acc : Dict String (List Peer)) (d : String) (xs : List Peer) (p : Peer)
      → Dict.get acc d ≡ entry xs
      → Dict.get (add_to env acc p) d ≡ entry (if key_of p == d then xs ++ p ∷ [] else xs)
  entry-add_to acc d xs p h = elim (Bool-cases (key_of p == d)) [
    | inl here ↦
        let same : key_of p ≡ d = (eq_iff (key_of p) d).0 here in
        let found : Dict.get acc (key_of p) ≡ entry xs = rw same h in
        ground (
          arith,
          here,
          found,
          listed xs,
          entry-snoc xs p,
          Dict.get-insert acc (key_of p) d (xs ++ p ∷ []),
        )
    | inr other ↦ ground (
      arith,
      other,
      h,
      Dict.get-insert acc (key_of p) d (
          (elim (Dict.get acc (key_of p)) as (λ o. List Peer) [ none ↦ [] | some ps ↦ ps ])
          ++ p ∷ []),
    )
  ]

  get-by_domain_from :
      (ps : List Peer) (acc : Dict String (List Peer)) (d : String) (xs : List Peer)
      → Dict.get acc d ≡ entry xs
      → Dict.get (by_domain_from env acc ps) d ≡ entry (xs ++ alive_at d ps)
  unfolding by_domain_from
  get-by_domain_from [] acc d xs h = rw (append-nil xs) h
  get-by_domain_from (p ∷ ps) acc d xs h = elim (Bool-cases p.alive) [
    | inr asleep ↦ ground (arith, asleep, get-by_domain_from ps acc d xs h)
    | inl awake ↦ elim (Bool-cases (key_of p == d)) [
      | inl here ↦ ground (
        arith,
        awake,
        here,
        get-by_domain_from ps (add_to env acc p) d (xs ++ p ∷ [])
            (entry-add_to acc d xs p h ∙ ground (arith, here)),
        append_assoc xs (p ∷ []) (alive_at d ps),
      )
      | inr other ↦ ground (
        arith,
        awake,
        other,
        get-by_domain_from ps (add_to env acc p) d xs
            (entry-add_to acc d xs p h ∙ ground (arith, other)),
      )
    ]
  ]

-- The list under a domain is that of the peers that are alive and have the domain, in the order of the table,
-- where a peer without one counts under the empty text; a domain without such a peer has no entry.
pub by_domain_lem :
    {Request : Type 0} (env : Env Request) (w : World) (d : String)
    → Dict.get (by_domain env w) d ≡ entry env (alive_at env d (values w.peers))
unfolding by_domain Dict.get
by_domain_lem env w d = get-by_domain_from env (values w.peers) [] d [] refl

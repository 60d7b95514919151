-- ===== src/Server/Proxies/Rightmost.antt =====
-- A request is counted under its peer, or under the rightmost hop that no trusted proxy vouches
-- for; what a caller writes to the left of that hop does not matter.
use mathlib.Core.List.{append_assoc}
use hope.Base.{
  ℕ, ◌≡◌, ◌≢◌, refl, ap, sym, subst, ◌∙◌, ◌⊎◌, inl, inr, Bool, true, false, some, List, [], ◌∷◌,
  ◌++◌, ◌==◌, ==_iff, All, split_on, IpAddr, Bool-cases, Option-cases,
}
use hope.Server.Proxies.{
  canonical, key_of, Warned, Walk, found, unparseable, exhausted, backwards, hops, hop_address,
  trusts, walk, walked, client,
}

abbrev address_of : IpAddr → Walk → IpAddr
address_of d (found ip) = ip
address_of d _ = d

found_eq : {a b : IpAddr} → found a ≡ found b → a ≡ b
found_eq {a} h = ap (address_of a) h

split_on_nonempty :
    (sep : ℕ) (cs : List ℕ) → (p : List ℕ) × (ps : List (List ℕ)) × (split_on sep cs ≡ p ∷ ps)
unfolding split_on
split_on_nonempty sep [] = ([], [], refl)
split_on_nonempty sep (c ∷ cs) =
    let (p, ps, e) = split_on_nonempty sep cs in
    elim (Bool-cases (c == sep)) [
      | inl here ↦ ([], split_on sep cs, rw here refl)
      | inr other ↦ (c ∷ p, ps, rw (other, e) refl)
    ]

split_on-append :
    (sep : ℕ) (left right : List ℕ)
    → split_on sep (left ++ (sep ∷ right)) ≡ split_on sep left ++ split_on sep right
unfolding split_on
split_on-append sep [] right = rw ((==_iff sep sep).1 refl) refl
split_on-append sep (c ∷ cs) right = elim (Bool-cases (c == sep)) [
  | inl here ↦ rw here (ap (λ xs. [] ∷ xs) (split_on-append sep cs right))
  | inr other ↦
      let (p, ps, e) = split_on_nonempty sep cs in rw (other, split_on-append sep cs right, e) refl
]

backwards-append :
    (xs ys seen : List (List ℕ)) → backwards (xs ++ ys) seen ≡ backwards ys (backwards xs seen)
backwards-append [] ys seen = refl
backwards-append (x ∷ xs) ys seen = backwards-append xs ys (x ∷ seen)

backwards-seen : (xs seen : List (List ℕ)) → backwards xs seen ≡ backwards xs [] ++ seen
backwards-seen [] seen = refl
backwards-seen (x ∷ xs) seen =
    backwards-seen xs (x ∷ seen)
    ∙ sym (append_assoc (backwards xs []) (x ∷ []) seen)
    ∙ ap (λ ys. ys ++ seen) (sym (backwards-seen xs (x ∷ [])))

hops-append : (left right : List ℕ) → hops (left ++ (b',' ∷ right)) ≡ hops right ++ hops left
unfolding hops
hops-append left right = rw (split_on-append b',' left right) (
    backwards-append (split_on b',' left) (split_on b',' right) []
    ∙ backwards-seen (split_on b',' right) (backwards (split_on b',' left) []))

module _ {Net : Type 0} (contains : Net → IpAddr → Bool) (nets : List Net) where
  walk_trusted :
      (x : List ℕ) (xs : List (List ℕ)) (ip : IpAddr)
      → hop_address x ≡ some ip
      → trusts contains nets ip ≡ true
      → walk contains nets (x ∷ xs) ≡ walk contains nets xs
  unfolding walk
  walk_trusted x xs ip good trusted = rw (good, trusted, walk) refl

  -- The walk ends in the first hops.
  walk-append :
      (xs ys : List (List ℕ))
      → walk contains nets xs ≢ exhausted
      → walk contains nets (xs ++ ys) ≡ walk contains nets xs
  unfolding walk
  walk-append [] ys h = absurd (h refl)
  walk-append (x ∷ xs) ys h = elim (Option-cases (hop_address x)) [
    | inl bad ↦ rw (bad, walk) refl
    | inr (ip, good) ↦ elim (Bool-cases (trusts contains nets ip)) [
      | inl trusted ↦
          walk_trusted x (xs ++ ys) ip good trusted
          ∙ walk-append xs ys (λ e. h (walk_trusted x xs ip good trusted ∙ e))
          ∙ sym (walk_trusted x xs ip good trusted)
      | inr other ↦ rw (good, other, walk) refl
    ]
  ]

  -- A hop that the walk passes over.
  abbrev pub Vouched : List ℕ → Type 0
  Vouched x = (ip : IpAddr) × (hop_address x ≡ some ip) × (trusts contains nets ip ≡ true)

  -- The hop where the walk finds an address: all before it are trusted proxies, and it is not.
  walk-found :
      (xs : List (List ℕ)) (ip : IpAddr)
      → walk contains nets xs ≡ found ip
      → (before : List (List ℕ)) × (hop : List ℕ) × (after : List (List ℕ)) × (xs
          ≡ before ++ (hop ∷ after))
        × All Vouched before
        × (hop_address hop ≡ some ip)
        × (trusts contains nets ip ≡ false)
  unfolding walk
  walk-found [] ip h = cc
  walk-found (x ∷ xs) ip h = elim (Option-cases (hop_address x)) [
    | inl bad ↦ cc (rw (bad, walk) at h)
    | inr (a, good) ↦ elim (Bool-cases (trusts contains nets a)) [
      | inl trusted ↦
          let (before, hop, after, e, all, at, no_trust) =
            walk-found xs ip (sym (walk_trusted x xs a good trusted) ∙ h) in
          (x ∷ before, hop, after, ap (λ ys. x ∷ ys) e, ((a, good, trusted), all), at, no_trust)
      | inr other ↦
          let same = found_eq (rw (good, other, walk) at h) in
          (
            [],
            x,
            xs,
            refl,
            tt,
            good ∙ ap some same,
            subst (λ b. trusts contains nets b ≡ false) same other,
          )
    ]
  ]

  -- Where the walk over what stands to the right of a comma ends there, at an untrusted or at an
  -- unreadable hop, what stands to the left of the comma changes neither the key nor the warnings:
  -- a caller that writes the left part cannot choose its key.
  pub client-left :
      (peer : IpAddr) (left right : List ℕ) (w : Warned)
      → walk contains nets (hops right) ≢ exhausted
      → client contains nets (some peer) (some (left ++ (b',' ∷ right))) w
        ≡ client contains nets (some peer) (some right) w
  unfolding client
  client-left peer left right w h =
      rw (hops-append left right, walk-append (hops right) (hops left) h) refl

  -- What a request behind a trusted proxy is counted under, where it is not the proxy: the
  -- rightmost hop that is no trusted proxy.
  abbrev pub IsRightmost : List ℕ → List ℕ → Type 0
  IsRightmost header key =
      (ip : IpAddr) × (before : List (List ℕ)) × (hop : List ℕ) × (after : List (List ℕ)) × (key
        ≡ key_of ip)
      × (hops header ≡ before ++ (hop ∷ after))
      × All Vouched before
      × (hop_address hop ≡ some ip)
      × (trusts contains nets ip ≡ false)

  -- A request with a forwarding header is counted under its peer's address, or its peer is a
  -- trusted proxy and the address is that of the rightmost hop that is no trusted proxy, all hops
  -- to the right of it being trusted proxies.
  pub client_lem :
      (peer : IpAddr) (header : List ℕ) (w : Warned)
      → ((client contains nets (some peer) (some header) w).0 ≡ key_of (canonical peer))
        ⊎ ((trusts contains nets (canonical peer) ≡ true)
            × IsRightmost header (client contains nets (some peer) (some header) w).0)
  unfolding client
  client_lem peer header w = elim (Bool-cases (trusts contains nets (canonical peer))) [
    | inl trusted ↦ rw trusted (by_walk (walk contains nets (hops header)) refl)
    | inr other ↦ inl (rw other refl)
  ]
    where
      by_walk :
          (how : Walk)
          → walk contains nets (hops header) ≡ how
          → ((walked (canonical peer) w how).0 ≡ key_of (canonical peer))
            ⊎ ((true ≡ true) × IsRightmost header (walked (canonical peer) w how).0)
      by_walk unparseable e = inl refl
      by_walk exhausted e = inl refl
      by_walk (found ip) e =
          let (before, hop, after, split, all, at, other) = walk-found (hops header) ip e in
          inr (refl, (ip, before, hop, after, refl, split, all, at, other))

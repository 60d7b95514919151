-- ===== src/Server/Children/Shares.antt =====
-- A shared scope that a token has opened is open to it again.
use hope.Base.{
  ◌≡◌, refl, ap, ◌∙◌, inl, inr, String, Bool, true, false, not, ◌||◌, Option, none, some, List, [],
  ◌∷◌, ◌++◌, all, find, ◌==◌, str_eq, str_eq_iff, codes, byte_len, is_hex_digit, Bool-cases,
  Option-cases,
}
use hope.Protocol.Types.{ChildSourceKind, ChildReportBatch}
use hope.Server.Children.{
  same_source, SharedScope, ChildTables, Sharing, refused, granted, is_scope_of, bound_to, share_by,
  share,
}

pub find-append {ℓ} :
    {A : Type ℓ} (p : A → Bool) (xs : List A) (x : A)
    → find p xs ≡ none
    → p x ≡ true
    → find p (xs ++ (x ∷ [])) ≡ some x
find-append p [] x free own = rw own refl
find-append p (y ∷ ys) x free own = elim (Bool-cases (p y)) [
  | inl here ↦ cc (rw here at free)
  | inr other ↦ rw other (find-append p ys x (rw other at free) own)
]

pub same_source_refl : (s : ChildSourceKind) → same_source s s ≡ true
same_source_refl ChildSourceKind.docker = refl
same_source_refl ChildSourceKind.proxmox = refl

pub str_eq_refl : (s : String) → str_eq s s ≡ true
str_eq_refl s = (str_eq_iff s s).1 refl

-- A scope that has been granted is granted again.
abbrev pub IsGranted : Sharing → Type 0
IsGranted (refused e) = ⊥
IsGranted (granted shared scopes members) = Unit

module _ (hash : String → String) (b : ChildReportBatch) where
  bound_to-IsGranted :
      (token_hash : String) (s : SharedScope) (t : ChildTables)
      → str_eq s.token_hash token_hash ≡ true
      → IsGranted (bound_to b token_hash (some s) t)
  bound_to-IsGranted token_hash s t same = rw same tt

  abbrev pub scopes_of : Sharing → List SharedScope
  scopes_of (refused e) = []
  scopes_of (granted shared scopes members) = scopes

  abbrev is_malformed : String → Bool
  is_malformed token = not (byte_len (codes token) == 64) || not (all is_hex_digit (codes token))

  found-IsGranted :
      (token : String) (s : SharedScope) (after : ChildTables)
      → is_malformed token ≡ false
      → find (is_scope_of b) after.scopes ≡ some s
      → str_eq s.token_hash (hash token) ≡ true
      → IsGranted (share_by hash b (some token) after)
  found-IsGranted token s after fine found same =
      rw (fine, found) (bound_to-IsGranted (hash token) s after same)

  share_by-IsGranted :
      (token : Option String) (t after : ChildTables)
      → after.scopes ≡ scopes_of (share_by hash b token t)
      → IsGranted (share_by hash b token t)
      → IsGranted (share_by hash b token after)
  share_by-IsGranted none t after same ok_before = tt
  share_by-IsGranted (some token) t after same ok_before = elim (Bool-cases (is_malformed token)) [
    | inl wrong ↦ absurd (rw wrong at ok_before)
    | inr fine ↦ elim (Option-cases (find (is_scope_of b) t.scopes)) [
      | inl free ↦
          let is = rw (fine, free) at same in
          let s : SharedScope = record {
            source = b.source;
            source_scope = b.source_scope;
            token_hash = hash token;
          } in
          let own : is_scope_of b s ≡ true =
            rw (same_source_refl b.source, str_eq_refl b.source_scope) refl in
          found-IsGranted token s after fine
            (ap (find (is_scope_of b)) is ∙ find-append (is_scope_of b) t.scopes s free own)
            (str_eq_refl (hash token))
      | inr (s, found) ↦ elim (Bool-cases (str_eq s.token_hash (hash token))) [
        | inr other ↦ absurd (rw (fine, found, other) at ok_before)
        | inl bound ↦
            let is = rw (fine, found, bound) at same in
            found-IsGranted token s after fine (ap (find (is_scope_of b)) is ∙ found) bound
      ]
    ]
  ]

pub share-IsGranted :
    (hash : String → String) (b : ChildReportBatch) (t after : ChildTables)
    → after.scopes ≡ scopes_of hash b (share hash b t)
    → IsGranted (share hash b t)
    → IsGranted (share hash b after)
unfolding share
share-IsGranted hash b t after same g = share_by-IsGranted hash b b.source_token t after same g

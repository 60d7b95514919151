-- ===== src/Protocol/Validation/Batch/Sound.antt =====
-- What `child_batch` guarantees of a batch that it accepts.
use hope.Base.{
  ℕ, zero, suc, ◌≤◌, ◌<◌, ◌≡◌, refl, subst, sym, ◌≢◌, inl, inr, String, Bool, true, false, not,
  ◌&&◌, ◌||◌, Option, none, some, List, [], ◌∷◌, arith, str_eq_iff, all, any, length, get_elem?,
  ltb, ◌==◌, i64_max, Bool-cases, ltb→lt, some_eq,
}
use hope.Protocol.Types.{ChildSourceKind, ChildDeviceKind, ChildDeviceReport, ChildReportBatch}
use hope.Protocol.Validation.Values.{valid, is_some}
use hope.Protocol.Validation.Batch.{header_ok, child_batch}
use hope.Protocol.Validation.Batch.Device.{
  same_kind, distinct_by, kind_matches_source, same_source_key, origin_ok, details_ok, devices_ok,
}

module _ {ℓ} {A : Type ℓ} (same : A → A → Bool) where
  any-get :
      (x : A) (xs : List A) (i : ℕ) (y : A)
      → any (same x) xs ≡ false
      → get_elem? xs i ≡ some y
      → same x y ≡ false
  any-get x [] i y h at = cc
  any-get x (z ∷ zs) zero y h at = ground (arith, some_eq at)
  any-get x (z ∷ zs) (suc i) y h at = any-get x zs i y (ground arith) at

  -- What follows differs from all that has been seen.
  distinct-seen :
      (seen xs : List A) (j i : ℕ) (x y : A)
      → distinct_by same seen xs ≡ true
      → get_elem? seen j ≡ some y
      → get_elem? xs i ≡ some x
      → same x y ≡ false
  distinct-seen seen [] j i x y h at here = cc
  distinct-seen seen (z ∷ zs) j zero x y h at here =
      subst (λ w. same w y ≡ false) (some_eq here) (any-get z seen j y (ground arith) at)
  distinct-seen seen (z ∷ zs) j (suc i) x y h at here =
      distinct-seen (z ∷ seen) zs (suc j) i x y (ground arith) at here

  -- No element is the same as an earlier one.
  distinct-get :
      (seen xs : List A) (i j : ℕ) (x y : A)
      → distinct_by same seen xs ≡ true
      → j < i
      → get_elem? xs i ≡ some x
      → get_elem? xs j ≡ some y
      → same x y ≡ false
  distinct-get seen [] i j x y h less here there = cc
  distinct-get seen (z ∷ zs) zero j x y h less here there = absurd (omega arith)
  distinct-get seen (z ∷ zs) (suc i) zero x y h less here there =
      distinct-seen (z ∷ seen) zs zero i x y (ground arith) there here
  distinct-get seen (z ∷ zs) (suc i) (suc j) x y h less here there =
      distinct-get (z ∷ seen) zs i j x y (ground arith) (omega arith) here there

module _ {ℓ} {A : Type ℓ} where
  all-get :
      (p : A → Bool) (xs : List A) (i : ℕ) (x : A)
      → all p xs ≡ true
      → get_elem? xs i ≡ some x
      → p x ≡ true
  all-get p [] i x h here = cc
  all-get p (z ∷ zs) zero x h here = subst (λ w. p w ≡ true) (some_eq here) (ground arith)
  all-get p (z ∷ zs) (suc i) x h here = all-get p zs i x (ground arith) here

same_kind_refl : (k : ChildDeviceKind) → same_kind k k ≡ true
same_kind_refl ChildDeviceKind.docker_container = refl
same_kind_refl ChildDeviceKind.proxmox_vm = refl
same_kind_refl ChildDeviceKind.proxmox_lxc = refl

same_source_key-of :
    (x y : ChildDeviceReport)
    → x.identity.kind ≡ y.identity.kind
    → x.identity.key ≡ y.identity.key
    → same_source_key x y ≡ true
unfolding same_source_key
same_source_key-of x y kind key = rw (kind, same_kind_refl) ((str_eq_iff _ _).1 key)

docker_only :
    (k : ChildDeviceKind)
    → kind_matches_source ChildSourceKind.docker k ≡ true
    → k ≡ ChildDeviceKind.docker_container
unfolding kind_matches_source
docker_only ChildDeviceKind.docker_container h = refl
docker_only ChildDeviceKind.proxmox_vm h = cc
docker_only ChildDeviceKind.proxmox_lxc h = cc

-- A device's place in a batch, and what is known of it there.
pub record Placed (v : ChildReportBatch) (d : ChildDeviceReport) : Type 0 where
  pub scope : d.identity.scope ≡ v.source_scope
  pub kind : v.source ≡ ChildSourceKind.docker → d.identity.kind ≡ ChildDeviceKind.docker_container
  pub mapped : d.legacy_incarnation ≢ none → v.legacy_source_scope ≢ none

pub record Sound (v : ChildReportBatch) : Type 0 where
  pub sequence : (1 ≤ v.sequence) × (v.sequence ≤ i64_max)
  pub generation : (1 ≤ v.inventory_generation) × (v.inventory_generation ≤ i64_max)
  pub chunk : (v.chunk_index < v.chunk_count) × (v.chunk_count ≤ 512)
  pub whole : v.inventory_id ≡ none → (v.chunk_index ≡ 0) × (v.chunk_count ≡ 1)
  pub few : length v.devices ≤ 512
  pub placed : (i : ℕ) (d : ChildDeviceReport) → get_elem? v.devices i ≡ some d → Placed v d
  pub distinct :
      (i j : ℕ) (d e : ChildDeviceReport)
      → get_elem? v.devices i ≡ some d
      → get_elem? v.devices j ≡ some e
      → d.identity.kind ≡ e.identity.kind
      → d.identity.key ≡ e.identity.key
      → i ≡ j

mapped_lem : (a b : Option String) → (not (is_some a) || is_some b) ≡ true → a ≢ none → b ≢ none
mapped_lem none b h p = absurd (p refl)
mapped_lem (some a) none h p = cc
mapped_lem (some a) (some b) h p = λ q. cc

whole_lem :
    (id : Option String) (index count : ℕ)
    → (is_some id || ((index == 0) && (count == 1))) ≡ true
    → id ≡ none
    → (index ≡ 0) × (count ≡ 1)
whole_lem none index count h p = (ground arith, ground arith)
whole_lem (some a) index count h p = cc

module _ (v : ChildReportBatch) where
  placed_lem : (d : ChildDeviceReport) → (origin_ok v d && details_ok d) ≡ true → Placed v d
  unfolding origin_ok
  placed_lem d h = record {
    scope = (str_eq_iff d.identity.scope v.source_scope).0 (ground arith);
    kind = λ docker.
        docker_only d.identity.kind
          (subst (λ s. kind_matches_source s d.identity.kind ≡ true) docker (ground arith));
    mapped = mapped_lem d.legacy_incarnation v.legacy_source_scope (ground arith);
  }

  distinct_lem :
      (i j : ℕ) (d e : ChildDeviceReport)
      → devices_ok v v.devices ≡ true
      → get_elem? v.devices i ≡ some d
      → get_elem? v.devices j ≡ some e
      → d.identity.kind ≡ e.identity.kind
      → d.identity.key ≡ e.identity.key
      → j < i
      → ⊥
  unfolding devices_ok
  distinct_lem i j d e h at at' kind key less =
      let same = same_source_key-of d e kind key in
      let apart = distinct-get same_source_key [] v.devices i j d e (ground arith) less at at' in cc

module _ (is_uuid : String → Bool) (v : ChildReportBatch) where
  verdict_lem :
      child_batch is_uuid v ≡ valid → (header_ok is_uuid v ≡ true) × (devices_ok v v.devices ≡ true)
  unfolding child_batch
  verdict_lem h = (ground arith, ground arith)

  -- A batch that passes the check has positive sequence and generation numbers that fit an i64, is
  -- one chunk of at most 512, the only one where no inventory is named, and holds at most 512
  -- devices. Each of these is from the batch's own scope, a container where the source is Docker,
  -- and no two of them share both kind and key.
  pub child_batch-Sound : child_batch is_uuid v ≡ valid → Sound v
  unfolding header_ok devices_ok
  child_batch-Sound h =
      let (head, devices) = verdict_lem h in
      record {
        sequence = (ground arith, ground arith);
        generation = (ground arith, ground arith);
        chunk = (ground arith, ground arith);
        whole = whole_lem v.inventory_id v.chunk_index v.chunk_count (ground arith);
        few = ground arith;
        placed = λ i d at.
            placed_lem v d
              (all-get (λ x. origin_ok v x && details_ok x) v.devices i d (ground arith) at);
        distinct = λ i j d e at at' kind key. elim (Bool-cases (ltb j i)) [
          | inl less ↦ absurd (distinct_lem v i j d e devices at at' kind key (ltb→lt _ _ less))
          | inr other ↦ elim (Bool-cases (ltb i j)) [
            | inl more ↦
                absurd
                  (distinct_lem v j i e d devices at' at (sym kind) (sym key) (ltb→lt _ _ more))
            | inr equal ↦ ground arith
          ]
        ];
      }

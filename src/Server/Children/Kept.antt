-- ===== src/Server/Children/Kept.antt =====
-- What the functions of hope-server/src/identity.rs leave as it was in the rows of devices, and
-- what then holds of each row before the devices that an inventory does not name are looked for.
use hope.Base.{
  ◌≡◌, inl, inr, String, Bool, false, not, Option, none, some, List, [], ◌∷◌, ◌++◌, All, filter,
  map, str_eq, if_both,
}
use mathlib.Core.List.{Memᴰ}
use mathlib.Core.List.Memᴰ
use hope.Protocol.Types.{ChildDeviceReport, ChildReportBatch}
use hope.Server.Children.{SourceDevice, DeviceTables, PendingIdentity}
use hope.Server.Children.Devices.{is_archived}
use hope.Server.Children.Legacy.{
  Identities, pending_device, proves_pending, merged, merge_pending, take_pending, take_all_pending,
  merge_legacy, legacy_id, is_pending, migrate_shared,
}
use hope.Server.Errors.{ApiResult, ok, err, ◌>>=◌}

-- A row that no inventory has missed.
pub record IsFresh (row : SourceDevice) : Type 0 where
  pub count : row.missing_complete_count ≡ 0
  pub since : row.missing_since ≡ none
  pub generation : row.missing_inventory_generation ≡ 0
  pub lifecycle : is_archived row.lifecycle ≡ false

-- The same device, of which inventories have said the same.
pub record IsSame (old row : SourceDevice) : Type 0 where
  pub key : row.source_key ≡ old.source_key
  pub incarnation : row.incarnation ≡ old.incarnation
  pub kind : row.kind ≡ old.kind
  pub lifecycle : row.lifecycle ≡ old.lifecycle
  pub count : row.missing_complete_count ≡ old.missing_complete_count
  pub since : row.missing_since ≡ old.missing_since
  pub generation : row.missing_inventory_generation ≡ old.missing_inventory_generation

-- A predicate of the result, where there is one.
abbrev pub After {ℓ} : {A : Type ℓ} → (A → Type 0) → ApiResult A → Type 0
After P (ok a) = P a
After P (err e) = Unit

-- Each row of the tables was a row of the same device before; rows may have been deleted.
abbrev pub KeepsRows : DeviceTables → DeviceTables → Type 0
KeepsRows before after =
    All (λ row. (old : SourceDevice) × Memᴰ old before.devices × IsSame old row) after.devices

-- The functions of identity.rs set the hosts of rows and delete rows.
pub record KeepsDevices (identities : Identities) : Type 0 where
  pub maps :
      (shared : Bool) (b : ChildReportBatch) (t : DeviceTables)
      → After (KeepsRows t) (identities.reconcile_maps shared b t)
  pub reconciles :
      (b : ChildReportBatch) (d : ChildDeviceReport) (t : DeviceTables)
      → After (KeepsRows t) (identities.reconcile_shared b d t)
  pub merges :
      (survivor old parent : String) (t : DeviceTables)
      → After (KeepsRows t) (identities.merge survivor old parent t)
  pub sources :
      (fresh : List String) (t : DeviceTables)
      → After (KeepsRows t) (identities.reconcile_sources fresh t)

pub All-lookup {ℓ} :
    {A : Type ℓ} (P : A → Type 0) (xs : List A) (x : A) → All P xs → Memᴰ x xs → P x
All-lookup P [] x h m = absurd (Memᴰ.not-nil m)
All-lookup P (y ∷ ys) x h m = elim (Memᴰ.cases_cons m) [
  | inl e ↦ rw e h.0
  | inr at ↦ All-lookup P ys x h.1 at
]

pub All-map {ℓ κ} :
    {A : Type ℓ} {B : Type κ} (P : A → Type 0) (Q : B → Type 0) (f : A → B) (xs : List A)
    → ((x : A) → P x → Q (f x))
    → All P xs
    → All Q (map f xs)
All-map P Q f [] step h = tt
All-map P Q f (x ∷ xs) step h = (step x h.0, All-map P Q f xs step h.1)

pub All-weaken {ℓ} :
    {A : Type ℓ} (P Q : A → Type 0) (xs : List A) → ((x : A) → P x → Q x) → All P xs → All Q xs
All-weaken P Q [] step h = tt
All-weaken P Q (x ∷ xs) step h = (step x h.0, All-weaken P Q xs step h.1)

pub All-append {ℓ} :
    {A : Type ℓ} (P : A → Type 0) (xs ys : List A) → All P xs → All P ys → All P (xs ++ ys)
All-append P [] ys hx hy = hy
All-append P (x ∷ xs) ys hx hy = (hx.0, All-append P xs ys hx.1 hy)

pub After-bind {ℓ κ} :
    {A : Type ℓ} {B : Type κ} (P : A → Type 0) (Q : B → Type 0) (r : ApiResult A)
    (next : A → ApiResult B)
    → After P r
    → ((a : A) → P a → After Q (next a))
    → After Q (r >>= next)
After-bind P Q (ok a) next h step = step a h
After-bind P Q (err e) next h step = tt

-- A predicate that depends only on what such a function keeps, and that a fresh row has.
module _ (P : SourceDevice → Type 0)
    (moves : (old row : SourceDevice) → IsSame old row → P old → P row) where
  abbrev Holds : DeviceTables → Type 0
  Holds t = All P t.devices

  abbrev Found : Option String × DeviceTables → Type 0
  Found a = Holds a.1

  kept-Holds : (t after : DeviceTables) → Holds t → KeepsRows t after → Holds after
  kept-Holds t after h =
      All-weaken _ P after.devices (λ row k. moves k.0 row k.2 (All-lookup P t.devices k.0 h k.1))

  pub all_kept :
      (t : DeviceTables) (r : ApiResult DeviceTables)
      → Holds t
      → After (KeepsRows t) r
      → After Holds r
  all_kept t (ok after) h k = kept-Holds t after h k
  all_kept t (err e) h k = tt

  module _ (identities : Identities) (keeps : KeepsDevices identities) where
    merged-Holds :
        (survivor old parent : String) (t : DeviceTables)
        → Holds t
        → After Holds (merged identities survivor old parent t)
    merged-Holds survivor old parent t h =
        if_both (After Holds) (str_eq survivor old) h (
          all_kept t (identities.merge survivor old parent t) h
            (keeps.merges survivor old parent t))

    merge_pending-Holds :
        (mapped found : Option String) (p : PendingIdentity) (t : DeviceTables)
        → Holds t
        → After Found (merge_pending identities mapped found p t)
    merge_pending-Holds (some canonical) found p t h =
        After-bind Holds Found _ _
          (merged-Holds canonical p.legacy_source_device_id p.parent_agent_id t h) (λ a k. k)
    merge_pending-Holds none (some survivor) p t h =
        After-bind Holds Found _ _
          (merged-Holds survivor p.legacy_source_device_id p.parent_agent_id t h) (λ a k. k)
    merge_pending-Holds none none p t h = h

    module _ (b : ChildReportBatch) (d : ChildDeviceReport) where
      take_pending-Holds :
          (old : Option SourceDevice) (mapped found : Option String) (p : PendingIdentity)
          (t : DeviceTables)
          → Holds t
          → After Found (take_pending identities b d old mapped found p t)
      take_pending-Holds none mapped found p t h = h
      take_pending-Holds (some old) mapped found p t h =
          if_both (After Found) (not (proves_pending b d old)) h
            (After-bind Found Found _ _ (merge_pending-Holds mapped found p t h) (λ a k. k))

      take_all_pending-Holds :
          (mapped found : Option String) (ps : List PendingIdentity) (t : DeviceTables)
          → Holds t
          → After Found (take_all_pending identities b d mapped found ps t)
      unfolding take_all_pending
      take_all_pending-Holds mapped found [] t h = h
      take_all_pending-Holds mapped found (p ∷ ps) t h =
          After-bind Found Found _ _
            (take_pending-Holds (pending_device b d p t) mapped found p t h)
            (λ a k. take_all_pending-Holds mapped a.0 ps a.1 k)

      merge_legacy-Holds :
          (mapped old : Option String) (t : DeviceTables)
          → Holds t
          → After Holds (merge_legacy identities b d mapped old t)
      merge_legacy-Holds (some canonical) (some old) t h = merged-Holds canonical old b.agent_id t h
      merge_legacy-Holds (some canonical) none t h = h
      merge_legacy-Holds none old t h = h

      pub migrate_shared-Holds :
          (mapped : Option String) (t : DeviceTables)
          → Holds t
          → After (λ a. Holds a.0) (migrate_shared identities b d mapped t)
      unfolding migrate_shared
      migrate_shared-Holds mapped t h =
          After-bind Found (λ (a : DeviceTables × Option String). Holds a.0) _ _
            (take_all_pending-Holds mapped none (filter (is_pending b d) t.pending) t h)
            (λ a k.
              After-bind Holds (λ (c : DeviceTables × Option String). Holds c.0) _ _
                (merge_legacy-Holds mapped (legacy_id b d a.0 a.1) a.1 k) (λ c l. l))

-- ===== src/Server/Children/Written.antt =====
-- What holds of each row of devices when those of a batch are written.
use hope.Base.{
  arith, ◌≡◌, refl, String, Bool, true, false, not, Option, List, [], ◌∷◌, All, all, any, str_eq,
  if_both, and_true,
}
use hope.Protocol.Types.{ChildDeviceReport, ChildReportBatch}
use hope.Server.Children.{SourceDevice, DeviceTables}
use hope.Server.Children.Devices.{
  Stored, is_archived, updated, inserted, with_id, write_device, store_row, store_device,
  store_devices, prepared, migrated, is_newer, row_id,
}
use hope.Server.Children.Legacy.{Identities}
use hope.Server.Children.Kept.{
  IsFresh, IsSame, After, KeepsDevices, All-map, All-append, After-bind, all_kept,
  migrate_shared-Holds,
}

module _ (P : SourceDevice → Type 0)
    (moves : (old row : SourceDevice) → IsSame old row → P old → P row) where
  abbrev Holds : DeviceTables → Type 0
  Holds t = All P t.devices

  module _ (identities : Identities) (keeps : KeepsDevices identities) (b : ChildReportBatch)
      (d : ChildDeviceReport) where
    module _ (shared : Bool) where
      prepared-Holds : (t : DeviceTables) → Holds t → After Holds (prepared identities shared b d t)
      prepared-Holds t h =
          if_both (After Holds) shared
            (all_kept P moves t (identities.reconcile_shared b d t) h (keeps.reconciles b d t)) h

      migrated-Holds :
          (mapped : Option String) (t : DeviceTables)
          → Holds t
          → After (λ a. Holds a.0) (migrated identities shared b d mapped t)
      migrated-Holds mapped t h =
          if_both (After (λ (a : DeviceTables × Option String). Holds a.0)) shared
            (migrate_shared-Holds P moves identities keeps b d mapped t h) h

  module _ (fresh : (row : SourceDevice) → IsFresh row → P row) (b : ChildReportBatch)
      (d : ChildDeviceReport) (live : is_archived d.lifecycle ≡ false) where
    write_device-Holds :
        (id : String) (rows : List SourceDevice) → All P rows → All P (write_device b d id rows)
    unfolding write_device
    write_device-Holds id rows h =
        if_both (All P) (any (with_id id) rows)
          (All-map P P _ rows
            (λ row k.
              if_both P (str_eq row.id id)
                (fresh (updated b d row)
                  (record { count = refl; since = refl; generation = refl; lifecycle = live }))
                k)
            h)
          (All-append P rows _ h (
            fresh (inserted b d id)
                (record { count = refl; since = refl; generation = refl; lifecycle = live }),
            tt,
          ))

    store_row-Holds :
        (identities : Identities) (shared : Bool) (existing : Option SourceDevice)
        (t : DeviceTables) (s : Stored)
        → Holds t
        → Holds (store_row identities shared b d existing t s).tables
    unfolding store_row
    store_row-Holds identities shared existing t s h =
        if_both (All P) (is_newer b d existing)
          (write_device-Holds (row_id identities shared b d existing) t.devices h) h

    store_device-Holds :
        (identities : Identities) (shared : Bool) (s : Stored)
        → KeepsDevices identities
        → Holds s.tables
        → After (λ a. Holds a.tables) (store_device identities shared b d s)
    unfolding store_device
    store_device-Holds identities shared s keeps h =
        After-bind Holds (λ (a : Stored). Holds a.tables) _ _
          (prepared-Holds identities keeps b d shared s.tables h)
          (λ before k.
            After-bind (λ (a : DeviceTables × Option String). Holds a.0)
              (λ (a : Stored). Holds a.tables) _ _
              (migrated-Holds identities keeps b d shared _ before k)
              (λ after l. store_row-Holds identities shared _ after.0 s l))

  pub store_devices-Holds :
      (fresh : (row : SourceDevice) → IsFresh row → P row) (identities : Identities)
      (keeps : KeepsDevices identities) (shared : Bool) (b : ChildReportBatch)
      (ds : List ChildDeviceReport) (s : Stored)
      → all (λ d. not (is_archived d.lifecycle)) ds ≡ true
      → Holds s.tables
      → After (λ a. Holds a.tables) (store_devices identities shared b ds s)
  unfolding store_devices
  store_devices-Holds fresh identities keeps shared b [] s live h = h
  store_devices-Holds fresh identities keeps shared b (d ∷ ds) s live h =
      let (own, rest) = and_true (not (is_archived d.lifecycle)) _ live in
      After-bind (λ (a : Stored). Holds a.tables) (λ (a : Stored). Holds a.tables) _ _
        (store_device-Holds fresh b d (ground (arith, own)) identities shared s keeps h)
        (λ after k. store_devices-Holds fresh identities keeps shared b ds after rest k)

-- ===== src/CallHome/Media/Sums.antt =====
-- The disk types of the storage media account for all of it.
use mayastor_extensions.Prelude.{
  ℕ, ◌+◌, ◌*◌, ◌^◌, ◌<◌, ◌≡◌, refl, String, List, [], ◌∷◌, none, some, arith, length, map,
}
use mayastor_extensions.CallHome.Volumes.{sum_u64}
use mayastor_extensions.CallHome.Media.{
  BlockDevice, DiskTypeInfo, disk_types, get_disk_type, storage_media, update,
}

abbrev pub counted : List (String × DiskTypeInfo) → ℕ
counted [] = 0
counted ((key, info) ∷ rest) = info.count + counted rest

abbrev pub capacity : List (String × DiskTypeInfo) → ℕ
capacity [] = 0
capacity ((key, info) ∷ rest) = info.capacity_in_bytes + capacity rest

abbrev pub sectors : List BlockDevice → ℕ
sectors [] = 0
sectors (d ∷ ds) = d.size + sectors ds

counted-update :
    (t : String) (size : ℕ) (types : List (String × DiskTypeInfo))
    → counted types + 1 < 2 ^ 64
    → counted (update t size types) ≡ counted types + 1
unfolding update
counted-update t size [] h = omega arith
counted-update t size ((key, info) ∷ rest) h =
    ground (arith, h, counted-update t size rest (omega (arith, h)))

capacity-update :
    (t : String) (size : ℕ) (types : List (String × DiskTypeInfo))
    → capacity types + size * 512 < 2 ^ 64
    → capacity (update t size types) ≡ capacity types + size * 512
unfolding update
capacity-update t size [] h = omega (arith, h)
capacity-update t size ((key, info) ∷ rest) h =
    ground (arith, h, capacity-update t size rest (omega (arith, h)))

disk_types-counted :
    (ds : List BlockDevice) (types : List (String × DiskTypeInfo))
    → counted types + length ds < 2 ^ 64
    → counted (disk_types ds types) ≡ counted types + length ds
unfolding disk_types
disk_types-counted [] types h = omega arith
disk_types-counted (d ∷ ds) types h =
    let e = counted-update (get_disk_type (some d) none) d.size types (omega (arith, h)) in
    omega (
      arith,
      e,
      disk_types-counted ds (update (get_disk_type (some d) none) d.size types)
          (omega (arith, e, h)),
    )

disk_types-capacity :
    (ds : List BlockDevice) (types : List (String × DiskTypeInfo))
    → capacity types + sectors ds * 512 < 2 ^ 64
    → capacity (disk_types ds types) ≡ capacity types + sectors ds * 512
unfolding disk_types
disk_types-capacity [] types h = omega arith
disk_types-capacity (d ∷ ds) types h =
    let e = capacity-update (get_disk_type (some d) none) d.size types (omega (arith, h)) in
    omega (
      arith,
      e,
      disk_types-capacity ds (update (get_disk_type (some d) none) d.size types)
          (omega (arith, e, h)),
    )

sum-sectors :
    (ds : List BlockDevice) → sectors ds < 2 ^ 64 → sum_u64 (map (λ d. d.size) ds) ≡ sectors ds
unfolding sum_u64
sum-sectors [] h = refl
sum-sectors (d ∷ ds) h = omega (arith, h, sum-sectors ds (omega (arith, h)))

-- As long as the bytes and the number of the devices fit a `u64`, the disk types share out the
-- storage media: their counts add up to the number of devices, and their capacities to the total
-- capacity, which is all the devices' sectors at 512 bytes.
pub storage_media-shared :
    (ds : List BlockDevice)
    → length ds < 2 ^ 64
    → sectors ds * 512 < 2 ^ 64
    → let m = storage_media ds in
      (counted m.types ≡ m.count)
      × (capacity m.types ≡ m.total_capacity_in_bytes)
      × (m.total_capacity_in_bytes ≡ sectors ds * 512)
unfolding storage_media
storage_media-shared ds few small = (
  omega (arith, disk_types-counted ds [] (omega (arith, few))),
  omega (
    arith,
    disk_types-capacity ds [] (omega (arith, small)),
    sum-sectors ds (omega (arith, small)),
    small,
  ),
  omega (arith, sum-sectors ds (omega (arith, small)), small),
)

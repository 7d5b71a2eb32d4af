-- ===== src/CallHome/Media.antt =====
-- The storage media of call-home/src/bin/callhome/collector/report_models.rs: `get_disk_type` and
-- `StorageMedia`. The `HashMap` of the disk types is an association list; sums of `u64` wrap, as in a
-- release build.
pub mod Sums
use text.Mathlib.Text.{starts_with}
use mayastor_extensions.Prelude.{
  ℕ, ◌+◌, ◌*◌, ◌%◌, ◌^◌, String, Bool, true, false, ◌||◌, Option, none, some, List, [], ◌∷◌, length,
  map, str_eq, if◌then◌else◌,
}
use mayastor_extensions.CallHome.Volumes.{sum_u64}

-- openapi `BlockDevice`
pub record BlockDevice : Type 0 where
  pub devname : String
  pub size : ℕ
  pub connection_type : String
  pub is_rotational : Option Bool

abbrev bytes_per_sector : ℕ
bytes_per_sector = 512

abbrev rotational_type : Option Bool → String
rotational_type none = "Unknown"
rotational_type (some true) = "HDD"
rotational_type (some false) = "SSD"

-- By the connection and whether the disk rotates.
unfoldable connection_disk_type : BlockDevice → String
connection_disk_type device =
    if str_eq device.connection_type "usb"
    then "USB Disk"
    else if str_eq device.connection_type "nvme"
    then "NVMe SSD"
    else if str_eq device.connection_type "scsi" || str_eq device.connection_type "ata"
    then rotational_type device.is_rotational
    else "Unknown"

unfoldable device_disk_type : BlockDevice → String
unfolding connection_disk_type
device_disk_type device =
    if starts_with device.devname "/dev/sr"
    then "Optical Drive"
    else if starts_with device.devname "/dev/fd"
    then "Floppy Disk"
    else if starts_with device.devname "/dev/md"
    then "RAID Device"
    else if starts_with device.devname "/dev/dm" || starts_with device.devname "/dev/mapper"
    then "Device Mapper"
    else if starts_with device.devname "/dev/xvd"
    then "Amazon Disk"
    else if starts_with device.devname "/dev/mmcblk"
    then "Memory Card"
    else if starts_with device.devname "/dev/mtd"
    then "Embedded Storage"
    else if starts_with device.devname "/dev/tape"
    then "Magnetic Tape"
    else if starts_with device.devname "/dev/loop"
    then "Loop Device"
    else if starts_with device.devname "/dev/nbd"
    then "Network Block Device"
    else if starts_with device.devname "/dev/ram"
    then "RAM Disk"
    else connection_disk_type device

-- `get_disk_type` of a device or of a scheme
unfoldable pub get_disk_type : Option BlockDevice → Option String → String
unfolding device_disk_type
get_disk_type (some device) scheme = device_disk_type device
get_disk_type none (some scheme) = if str_eq scheme "pcie" then "NVMe SSD" else "Unknown"
get_disk_type none none = "Unknown"

pub record DiskTypeInfo : Type 0 where
  pub count : ℕ
  pub capacity_in_bytes : ℕ

-- One more device of so many sectors.
abbrev add_device : ℕ → DiskTypeInfo → DiskTypeInfo
add_device size info = record {
  count = (info.count + 1) % 2 ^ 64;
  capacity_in_bytes = (info.capacity_in_bytes + size * bytes_per_sector % 2 ^ 64) % 2 ^ 64;
}

-- `disk_types.entry(disk_type).or_default()`, updated
unfoldable pub update : String → ℕ → List (String × DiskTypeInfo) → List (String × DiskTypeInfo)
update disk_type size [] =
    (disk_type, add_device size (record { count = 0; capacity_in_bytes = 0 })) ∷ []
update disk_type size ((key, info) ∷ rest) =
    let updated = update disk_type size rest in
    if str_eq key disk_type then (key, add_device size info) ∷ rest else (key, info) ∷ updated

unfoldable pub disk_types :
    List BlockDevice → List (String × DiskTypeInfo) → List (String × DiskTypeInfo)
unfolding update get_disk_type
disk_types [] types = types
disk_types (device ∷ devices) types =
    disk_types devices (update (get_disk_type (some device) none) device.size types)

pub record StorageMedia : Type 0 where
  pub count : ℕ
  pub total_capacity_in_bytes : ℕ
  pub types : List (String × DiskTypeInfo)

-- `StorageMedia::new`
unfoldable pub storage_media : List BlockDevice → StorageMedia
unfolding disk_types sum_u64
storage_media disks = record {
  count = length disks;
  total_capacity_in_bytes = sum_u64 (map (λ d. d.size) disks) * bytes_per_sector % 2 ^ 64;
  types = disk_types disks [];
}

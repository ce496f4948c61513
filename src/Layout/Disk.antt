-- ===== src/Layout/Disk.antt =====
-- Structures on disks: Kernel/include/fat32.h, tar.h, gpt.h and initrd.h.
use literate_os.Common.{[], ◌∷◌}
use literate_os.Layout.{field, Layout, size_of}

abbrev pub fat_bpb : Layout
fat_bpb =
    field "jmp" 1 3
    ∷ field "oem" 1 8
    ∷ field "bytesPerSector" 2 1
    ∷ field "sectorsPerClutser" 1 1
    ∷ field "reservedSectors" 2 1
    ∷ field "fatCount" 1 1
    ∷ field "directoryEntries" 2 1
    ∷ field "volSectorCount" 2 1
    ∷ field "mediaDescriptorType" 1 1
    ∷ field "sectorPerFAT" 2 1
    ∷ field "sectorPerTrack" 2 1
    ∷ field "headCount" 2 1
    ∷ field "hiddenSectorCount" 4 1
    ∷ field "largeSectorCount" 4 1
    ∷ []

abbrev pub fat32_ebr : Layout
fat32_ebr =
    field "sectorPerFAT" 4 1
    ∷ field "flags" 2 1
    ∷ field "fatVersion" 2 1
    ∷ field "rootClutserNum" 4 1
    ∷ field "fsInfoSector" 2 1
    ∷ field "bkupBootSector" 2 1
    ∷ field "reserved" 1 12
    ∷ field "driveNum" 1 1
    ∷ field "reserved1" 1 1
    ∷ field "signature" 1 1
    ∷ field "volumeID" 4 1
    ∷ field "volumeLabelString" 1 11
    ∷ field "sysIdString" 1 8
    ∷ []

abbrev pub fat32_boot_record : Layout
fat32_boot_record = field "bpb" (size_of fat_bpb) 1 ∷ field "ebr" (size_of fat32_ebr) 1 ∷ []

abbrev pub fat32_fsinfo : Layout
fat32_fsinfo =
    field "leadSignature" 4 1
    ∷ field "reserved" 1 480
    ∷ field "signature" 8 1
    ∷ field "freeClutserCount" 4 1
    ∷ field "firstSearchClutser" 4 1
    ∷ field "reserved" 1 12
    ∷ field "trailSignature" 2 1
    ∷ []

abbrev pub fat_entry : Layout
fat_entry =
    field "filename" 1 8
    ∷ field "ext" 1 3
    ∷ field "attributes" 1 1
    ∷ field "reserved" 1 1
    ∷ field "createTimeTenthsOfSecond" 1 1
    ∷ field "creationTime" 2 1
    ∷ field "creationDate" 2 1
    ∷ field "accessedDate" 2 1
    ∷ field "highClutserNum" 2 1
    ∷ field "modificationTime" 2 1
    ∷ field "modificationDate" 2 1
    ∷ field "lowClutserNum" 2 1
    ∷ field "fileSize" 4 1
    ∷ []

abbrev pub fat_lfn_entry : Layout
fat_lfn_entry =
    field "order" 1 1
    ∷ field "characters0" 2 5
    ∷ field "attributes" 1 1
    ∷ field "type" 1 1
    ∷ field "checksum" 1 1
    ∷ field "characters1" 2 6
    ∷ field "zero" 2 1
    ∷ field "characters2" 2 2
    ∷ []

abbrev pub tar_v7_header : Layout
tar_v7_header =
    field "name" 1 100
    ∷ field "mode" 1 8
    ∷ field "uid" 1 8
    ∷ field "gid" 1 8
    ∷ field "size" 1 12
    ∷ field "modTime" 1 12
    ∷ field "checksum" 1 8
    ∷ field "type" 1 1
    ∷ field "linkname" 1 100
    ∷ []

abbrev pub ustar_header : Layout
ustar_header =
    field "name" 1 100
    ∷ field "mode" 1 8
    ∷ field "uid" 1 8
    ∷ field "gid" 1 8
    ∷ field "size" 1 12
    ∷ field "modTime" 1 12
    ∷ field "checksum" 1 8
    ∷ field "type" 1 1
    ∷ field "linkName" 1 100
    ∷ field "sig" 1 6
    ∷ field "version" 1 2
    ∷ field "username" 1 32
    ∷ field "username" 1 32
    ∷ field "groupname" 1 32
    ∷ field "devMajor" 1 8
    ∷ field "devMinor" 1 8
    ∷ field "filenamePrefix" 1 155
    ∷ []

abbrev pub gpt_header : Layout
gpt_header =
    field "signature" 8 1
    ∷ field "revision" 4 1
    ∷ field "size" 4 1
    ∷ field "crc" 4 1
    ∷ field "reserved" 4 1
    ∷ field "currentLBA" 8 1
    ∷ field "backupLBA" 8 1
    ∷ field "firstLBA" 8 1
    ∷ field "lastLBA" 8 1
    ∷ field "diskGUID" 1 16
    ∷ field "partitionTableLBA" 8 1
    ∷ field "partNum" 4 1
    ∷ field "partEntrySize" 4 1
    ∷ field "partEntriesCRC" 4 1
    ∷ []

abbrev pub gpt_entry : Layout
gpt_entry =
    field "typeGUID" 1 16
    ∷ field "partitionGUID" 1 16
    ∷ field "startLBA" 8 1
    ∷ field "endLBA" 8 1
    ∷ field "flgas" 8 1
    ∷ field "name" 1 72
    ∷ []

abbrev pub literateinitfs_header : Layout
literateinitfs_header = field "fileCount" 4 1 ∷ field "versionString" 1 16 ∷ []

abbrev pub literateinitfs_node : Layout
literateinitfs_node =
    field "magic" 2 1
    ∷ field "filename" 1 32
    ∷ field "offset" 4 1
    ∷ field "size" 4 1
    ∷ field "type" 1 1
    ∷ []

-- ===== src/Layout/Ahci.antt =====
-- The structures that an AHCI controller shares with the driver: Kernel/include/ahci.h.
--
-- The offsets in the comments of the source are `port_offsets` and `ports_offset`.
pub mod Registers
use literate_os.Common.{ℕ, ◌+◌, ◌*◌, List, [], ◌∷◌}
use literate_os.Layout.{Member, field, bits, Layout, size_of}

-- Messages between host and device.
abbrev pub fis_reg_h2d : Layout
fis_reg_h2d =
    field "fis_type" 1 1
    ∷ bits "pmport" 4
    ∷ bits "resv0" 3
    ∷ bits "c" 1
    ∷ field "command" 1 1
    ∷ field "featurel" 1 1
    ∷ field "lba0" 1 1
    ∷ field "lba1" 1 1
    ∷ field "device" 1 1
    ∷ field "lba3" 1 1
    ∷ field "lba4" 1 1
    ∷ field "lba5" 1 1
    ∷ field "featureh" 1 1
    ∷ field "count1" 1 1
    ∷ field "counth" 1 1
    ∷ field "icc" 1 1
    ∷ field "control" 1 1
    ∷ field "resv1" 1 4
    ∷ []

abbrev pub fis_reg_d2h : Layout
fis_reg_d2h =
    field "fis_type" 1 1
    ∷ bits "pmport" 4
    ∷ bits "rsv0" 2
    ∷ bits "i" 1
    ∷ bits "resv1" 1
    ∷ field "status" 1 1
    ∷ field "error" 1 1
    ∷ field "lba0" 1 1
    ∷ field "lba1" 1 1
    ∷ field "lba2" 1 1
    ∷ field "device" 1 1
    ∷ field "lba3" 1 1
    ∷ field "lba4" 1 1
    ∷ field "lba5" 1 1
    ∷ field "rsv2" 1 1
    ∷ field "countl" 1 1
    ∷ field "counth" 1 1
    ∷ field "resv3" 1 2
    ∷ field "resv4" 1 4
    ∷ []

abbrev pub fis_data : Layout
fis_data =
    field "fis_type" 1 1
    ∷ bits "pmport" 4
    ∷ bits "rsv0" 4
    ∷ field "resv1" 1 2
    ∷ field "data" 1 1
    ∷ []

abbrev pub fis_pio_setup : Layout
fis_pio_setup =
    field "fis_type" 1 1
    ∷ bits "pmport" 4
    ∷ bits "rsv0" 1
    ∷ bits "d" 1
    ∷ bits "i" 1
    ∷ field "status" 1 1
    ∷ field "error" 1 1
    ∷ field "lba0" 1 1
    ∷ field "lba1" 1 1
    ∷ field "lba2" 1 1
    ∷ field "device" 1 1
    ∷ field "lba3" 1 1
    ∷ field "lba4" 1 1
    ∷ field "lba5" 1 1
    ∷ field "rsv2" 1 1
    ∷ field "countl" 1 1
    ∷ field "counth" 1 1
    ∷ field "rsv3" 1 1
    ∷ field "e_status" 1 1
    ∷ field "tc" 2 1
    ∷ field "rsv4" 1 2
    ∷ []

abbrev pub fis_dma_setup : Layout
fis_dma_setup =
    field "fis_type" 1 1
    ∷ bits "pmport" 4
    ∷ bits "rsv0" 1
    ∷ bits "d" 1
    ∷ bits "i" 1
    ∷ bits "a" 1
    ∷ field "resved" 1 2
    ∷ field "DMAbufferID" 1 1
    ∷ field "rsvd" 4 1
    ∷ field "DMAbufOffset" 4 1
    ∷ field "TransferCount" 4 1
    ∷ field "resvd" 4 1
    ∷ []

abbrev pub hba_port : Layout
hba_port =
    field "clb" 4 1
    ∷ field "clbu" 4 1
    ∷ field "fb" 4 1
    ∷ field "fbu" 4 1
    ∷ field "is" 4 1
    ∷ field "ie" 4 1
    ∷ field "cmd" 4 1
    ∷ field "rsv0" 4 1
    ∷ field "tfd" 4 1
    ∷ field "sig" 4 1
    ∷ field "ssts" 4 1
    ∷ field "sctl" 4 1
    ∷ field "serr" 4 1
    ∷ field "sact" 4 1
    ∷ field "ci" 4 1
    ∷ field "sntf" 4 1
    ∷ field "fbs" 4 1
    ∷ field "rsv1" 4 11
    ∷ field "vendor" 4 4
    ∷ []

abbrev pub hba_mem : Layout
hba_mem =
    field "cap" 4 1
    ∷ field "ghc" 4 1
    ∷ field "is" 4 1
    ∷ field "pi" 4 1
    ∷ field "vs" 4 1
    ∷ field "ccc_ctl" 4 1
    ∷ field "ccc_pts" 4 1
    ∷ field "em_loc" 4 1
    ∷ field "em_ctl" 4 1
    ∷ field "cap2" 4 1
    ∷ field "bohc" 4 1
    ∷ field "rsv" 1 116
    ∷ field "vendor" 1 96
    ∷ field "ports" (size_of hba_port) 32
    ∷ []

abbrev pub hba_fis : Layout
hba_fis =
    field "dsfis" (size_of fis_dma_setup) 1
    ∷ field "pad0" 1 4
    ∷ field "rfis" (size_of fis_pio_setup) 1
    ∷ field "pad1" 1 12
    ∷ field "rfis" (size_of fis_reg_d2h) 1
    ∷ field "pad2" 1 4
    ∷ field "sdbfis" 1 8
    ∷ field "ufis" 1 64
    ∷ field "rsv" 1 96
    ∷ []

abbrev pub hba_cmd_header : Layout
hba_cmd_header =
    bits "cfl" 5
    ∷ bits "a" 1
    ∷ bits "w" 1
    ∷ bits "p" 1
    ∷ bits "r" 1
    ∷ bits "b" 1
    ∷ bits "c" 1
    ∷ bits "pmp" 4
    ∷ field "prdtl" 2 1
    ∷ field "prdbc" 4 1
    ∷ field "ctba" 4 1
    ∷ field "ctbau" 4 1
    ∷ field "resv1" 4 4
    ∷ []

abbrev pub hba_prdt_entry : Layout
hba_prdt_entry =
    field "dba" 4 1
    ∷ field "dbau" 4 1
    ∷ field "rsv0" 4 1
    ∷ bits "dbc" 22
    ∷ bits "rsv1" 9
    ∷ bits "i" 1
    ∷ []

abbrev pub hba_cmd_tbl : Layout
hba_cmd_tbl =
    field "cfis" 1 64
    ∷ field "acmd" 1 16
    ∷ field "rsv" 1 48
    ∷ field "prdt_entry" (size_of hba_prdt_entry) 1
    ∷ []

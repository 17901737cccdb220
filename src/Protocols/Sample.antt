-- ===== src/Protocols/Sample.antt =====
-- Concrete functions and values for the runs at fixed values of the protocols: they stand for the
-- packages that oresat_c3/protocols/sdls.py and oresat_c3/protocols/uslp.py call.
use oresat_c3_software_esi.Base.{
  ◌≡◌, ℕ, ◌+◌, ◌%◌, false, none, List, [], ◌∷◌, length, replicate, length-replicate,
}
use oresat_c3_software_esi.Protocols.Sdls.{PrimaryHeader, TransferFrame, dest, hmac_len}

abbrev sum : List ℕ → ℕ
sum [] = 0
sum (b ∷ bs) = b + sum bs

-- a checksum in place of the HMAC
abbrev pub digest : List ℕ → List ℕ → List ℕ
digest key message = replicate 32 ((sum key + sum message) % 256)

pub length-digest : (key message : List ℕ) → length (digest key message) ≡ hmac_len
length-digest key message = length-replicate 32 ((sum key + sum message) % 256)

abbrev pub pack_header : PrimaryHeader → List ℕ
pack_header header = 0xC0 ∷ 1 ∷ 2 ∷ header.vcid ∷ 0 ∷ header.frame_len % 256 ∷ 0 ∷ []

abbrev pub tfdf_header : List ℕ
tfdf_header = 0xE5 ∷ []

abbrev pub key : List ℕ
key = 7 ∷ 8 ∷ 9 ∷ []

abbrev pub header : PrimaryHeader
header = record {
  scid = 0x4F53;
  map_id = 0;
  vcid = 0;
  src_dest = dest;
  frame_len = 49;
  vcf_count_len = 0;
  vcf_count = none;
  op_ctrl_flag = false;
  prot_ctrl_cmd_flag = false;
  bypass_seq_ctrl_flag = false;
}

-- the frame of a C3_HARD_RESET
abbrev pub plain : TransferFrame
plain = record {
  header = header;
  insert_zone = none;
  tfdf_header = tfdf_header;
  tfdz = 2 ∷ [];
  op_ctrl_field = none;
}

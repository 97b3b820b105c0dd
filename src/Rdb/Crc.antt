-- ===== src/Rdb/Crc.antt =====
-- The checksum of kv_RDB.c. The table is declared with 256 entries and initialised with 152: C sets
-- the other 104 to zero.
use Prim.Native.Nat.{bit_xor}
use mathlib.Core.List.{foldl, foldl-append}
use kv_study.Prelude.{
  ℕ, zero, suc, ◌-◌, ◌/◌, ◌%◌, ◌^◌, ◌≤◌, ◌<◌, ◌≡◌, refl, ap, ◌∙◌, Bool, true, ◌&&◌, List, [], ◌∷◌,
  ◌++◌, get_or, replicate, leb, leb→le, length, arith,
}

abbrev pub written_entries : List ℕ
written_entries =
    0x0000000000000000 ∷ 0x42F0E1EBA9EA3693 ∷ 0x85E1C3D753D46D26 ∷ 0xC711223CFA3E5BB5
    ∷ 0x493366450E42ECDF ∷ 0x0BC387AEA7A8DA4C ∷ 0xCCD2A5925D9681F9 ∷ 0x8E224479F47CB76A
    ∷ 0x9266CC8A1C85D9BE ∷ 0xD0962D61B56FEF2D ∷ 0x17870F5D4F51B498 ∷ 0x5577EEB6E6BB820B
    ∷ 0xDB55AACF12C73561 ∷ 0x99A54B24BB2D03F2 ∷ 0x5EB4691841135847 ∷ 0x1C4488F3E8F96ED4
    ∷ 0x663D78FF90E185EF ∷ 0x24CD9914390BB37C ∷ 0xE3DCBB28C335E8C9 ∷ 0xA12C5AC36ADFDE5A
    ∷ 0x2F0E1EBA9EA36930 ∷ 0x6DFEFF5137495FA3 ∷ 0xAAEFDD6DCD770416 ∷ 0xE81F3C86649D3285
    ∷ 0xF45BB4758C645C51 ∷ 0xB6AB559E258E6AC2 ∷ 0x71BA77A2DFB03177 ∷ 0x334A9649765A07E4
    ∷ 0xBD68D2308226B08E ∷ 0xFF9833DB2BCC861D ∷ 0x388911E7D1F2DDA8 ∷ 0x7A79F00C7818EB3B
    ∷ 0xCC7AF1FF21C30BDE ∷ 0x8E8A101488293D4D ∷ 0x499B3228721766F8 ∷ 0x0B6BD3C3DBFD506B
    ∷ 0x854997BA2F81E701 ∷ 0xC7B97651866BD192 ∷ 0x00A8546D7C558A27 ∷ 0x4258B586D5BFBCB4
    ∷ 0x5E1C3D753D46D260 ∷ 0x1CECDC9E94ACE4F3 ∷ 0xDBFDFEA26E92BF46 ∷ 0x990D1F49C77889D5
    ∷ 0x172F5B3033043EBF ∷ 0x55DFBADB9AEE082C ∷ 0x92CE98E760D05399 ∷ 0xD03E790CC93A650A
    ∷ 0xAA478900B1228E31 ∷ 0xE8B768EB18C8B8A2 ∷ 0x2FA64AD7E2F6E317 ∷ 0x6D56AB3C4B1CD584
    ∷ 0xE374EF45BF6062EE ∷ 0xA1840EAE168A547D ∷ 0x66952C92ECB40FC8 ∷ 0x2465CD79455E395B
    ∷ 0x3821458AADA7578F ∷ 0x7AD1A461044D611C ∷ 0xBDC0865DFE733AA9 ∷ 0xFF3067B657990C3A
    ∷ 0x711223CFA3E5BB50 ∷ 0x33E2C2240A0F8DC3 ∷ 0xF4F3E018F031D676 ∷ 0xB60301F359DBE0E5
    ∷ 0xDA050215EA6C212F ∷ 0x98F5E3FE438617BC ∷ 0x5FE4C1C2B9B84C09 ∷ 0x1D14202910527A9A
    ∷ 0x93366450E42ECDF0 ∷ 0xD1C685BB4DC4FB63 ∷ 0x16D7A787B7FAA0D6 ∷ 0x5427466C1E109645
    ∷ 0x4863CE9FF6E9F891 ∷ 0x0A932F745F03CE02 ∷ 0xCD820D48A53D95B7 ∷ 0x8F72ECA30CD7A324
    ∷ 0x0150A8DAF8AB144E ∷ 0x43A04931514122DD ∷ 0x84B16B0DAB7F7968 ∷ 0xC6418AE602954FFB
    ∷ 0xBC387AEA7A8DA4C0 ∷ 0xFEC89B01D3679253 ∷ 0x39D9B93D2959C9E6 ∷ 0x7B2958D680B3FF75
    ∷ 0xF50B1CAF74CF481F ∷ 0xB7FBFD44DD257E8C ∷ 0x70EADF78271B2539 ∷ 0x321A3E938EF113AA
    ∷ 0x2E5EB66066087D7E ∷ 0x6CAE578BCFE24BED ∷ 0xABBF75B735DC1058 ∷ 0xE94F945C9C3626CB
    ∷ 0x676DD025684A91A1 ∷ 0x259D31CEC1A0A732 ∷ 0xE28C13F23B9EFC87 ∷ 0xA07CF2199274CA14
    ∷ 0x167FF3EACBAF2AF1 ∷ 0x548F120162451C62 ∷ 0x939E303D987B47D7 ∷ 0xD16ED1D631917144
    ∷ 0x5F4C95AFC5EDC62E ∷ 0x1DBC74446C07F0BD ∷ 0xDAAD56789639AB08 ∷ 0x985DB7933FD39D9B
    ∷ 0x84193F60D72AF3AF ∷ 0xC6E9DE8B7EC0C53C ∷ 0x01F8FCB784FE9E89 ∷ 0x43081D5C2D14A81A
    ∷ 0xCD2A5925D9681F70 ∷ 0x8FDAB8CE708229E3 ∷ 0x4A6ACB4778EC7256 ∷ 0x089A2AACD10644C5
    ∷ 0x14DEA25F39FF2A61 ∷ 0x562E43B490151CF2 ∷ 0x913F61886A2B4747 ∷ 0xD3CF8063C3C171D4
    ∷ 0x5DFB059B1B3DC6BE ∷ 0x1F0BE470B2D7F02D ∷ 0xD81AC64C48E9AB98 ∷ 0x9AFAC7A7E1039D0B
    ∷ 0x86B64F5409FAF3DF ∷ 0xC446AEBFA010C54C ∷ 0x03578C835A2E9EF9 ∷ 0x41A76D68F3C4A86A
    ∷ 0xCF85291107B81F00 ∷ 0x8D75C8FAAE522993 ∷ 0x4A64EAC6546C7226 ∷ 0x08940B2DFD8644B5
    ∷ 0x72EDFB21859EAF8E ∷ 0x301D1ACACEF4991D ∷ 0xF70C38F634CAC2A8 ∷ 0xB5FCD91D9D20F43B
    ∷ 0x3BDED5646A5C4351 ∷ 0x792E348FC3B675C2 ∷ 0xBE3F16B339882E77 ∷ 0xFCCFF758906218E4
    ∷ 0xE08B7FAF789B7630 ∷ 0xA27B9E44D17140A3 ∷ 0x656ABC782B4F1B16 ∷ 0x279A5D9382A52D85
    ∷ 0xA9BA19EAB6D99AEF ∷ 0xEB4AF8011F33AC7C ∷ 0x2C5BDADDC50DF7C9 ∷ 0x6EA55B366CF7C15A
    ∷ 0x72E1DA21871EAF8E ∷ 0x30113BCACEF4991D ∷ 0xF70019F634CAC2A8 ∷ 0xB5F0F81D9D20F43B
    ∷ 0x3BD2BC64695C4351 ∷ 0x79225D8FC0B675C2 ∷ 0xBE337FB33A882E77 ∷ 0xFCC39E58936218E4 ∷ []

unfoldable pub crc64_table : List ℕ
crc64_table = written_entries ++ replicate 104 0

-- `crc64_table[(crc ^ byte) & 0xFF] ^ (crc >> 8)`
unfoldable pub crc_step : ℕ → ℕ → ℕ
unfolding crc64_table
crc_step crc byte = bit_xor (get_or crc64_table (bit_xor crc byte % 256) 0) (crc / 2 ^ 8)

abbrev all_ones : ℕ
all_ones = 2 ^ 64 - 1

unfoldable pub rdb_calculate_crc64 : List ℕ → ℕ
unfolding crc_step
rdb_calculate_crc64 bytes = bit_xor (foldl crc_step all_ones bytes) all_ones

get_or-append_right :
    (xs ys : List ℕ) (i : ℕ) → length xs ≤ i → get_or (xs ++ ys) i 0 ≡ get_or ys (i - length xs) 0
get_or-append_right [] ys i le = let same : i - 0 ≡ i = omega arith in rw same
get_or-append_right (x ∷ xs) ys zero le = absurd (omega arith)
get_or-append_right (x ∷ xs) ys (suc i) le =
    let same : suc i - suc (length xs) ≡ i - length xs = omega arith in
    rw same (get_or-append_right xs ys i (omega arith))

get_or-zeros : (n i : ℕ) → get_or {A = ℕ} (replicate n 0) i 0 ≡ 0
get_or-zeros zero i = refl
get_or-zeros (suc n) zero = refl
get_or-zeros (suc n) (suc i) = get_or-zeros n i

-- An index from 152 on finds 0.
unwritten-zero : (i : ℕ) → 152 ≤ i → get_or crc64_table i 0 ≡ 0
unfolding crc64_table
unwritten-zero i le =
    get_or-append_right written_entries (replicate 104 0) i le ∙ get_or-zeros 104 (i - 152)

-- Two bytes that both select an entry past 151 have the same effect.
crc_step-blind :
    (crc b c : ℕ)
    → 152 ≤ bit_xor crc b % 256
    → 152 ≤ bit_xor crc c % 256
    → crc_step crc b ≡ crc_step crc c
unfolding crc_step
crc_step-blind crc b c hb hc =
    rw (unwritten-zero (bit_xor crc b % 256) hb, unwritten-zero (bit_xor crc c % 256) hc)

-- Wherever the running checksum and two bytes select entries past 151, replacing one byte by the
-- other leaves the checksum of the whole data as it was.
pub crc64-blind :
    (before after : List ℕ) (b c : ℕ)
    → 152 ≤ bit_xor (foldl crc_step all_ones before) b % 256
    → 152 ≤ bit_xor (foldl crc_step all_ones before) c % 256
    → rdb_calculate_crc64 (before ++ b ∷ after) ≡ rdb_calculate_crc64 (before ++ c ∷ after)
unfolding rdb_calculate_crc64
crc64-blind before after b c hb hc =
    rw (foldl-append, foldl-append)
      (ap (λ (s : ℕ). bit_xor (foldl crc_step s after) all_ones)
        (crc_step-blind (foldl crc_step all_ones before) b c hb hc))

-- Whether every byte below the bound selects an entry past the table's initialisers.
blind_below : (bound : ℕ) → Bool
blind_below zero = true
blind_below (suc bound) = leb 152 (bit_xor all_ones bound % 256) && blind_below bound

blind_below_lem :
    (bound byte : ℕ)
    → byte < bound
    → blind_below bound ≡ true
    → leb 152 (bit_xor all_ones byte % 256) ≡ true
unfolding blind_below
blind_below_lem zero byte inside blind = absurd (omega arith)
blind_below_lem (suc bound) byte inside blind = ground (arith, blind_below_lem bound byte)

low_bytes_table : blind_below 104 ≡ true
unfolding blind_below
low_bytes_table = refl

low_byte : (b : ℕ) → b < 104 → 152 ≤ bit_xor all_ones b % 256
low_byte b lt = leb→le _ _ (blind_below_lem 104 b lt low_bytes_table)

-- The first byte of the data, where a snapshot keeps the kind of its first record, is not protected:
-- any two bytes below 104 there give one checksum.
pub crc64-first_byte :
    (b c : ℕ) (rest : List ℕ)
    → b < 104
    → c < 104
    → rdb_calculate_crc64 (b ∷ rest) ≡ rdb_calculate_crc64 (c ∷ rest)
crc64-first_byte b c rest hb hc = crc64-blind [] rest b c (low_byte b hb) (low_byte c hc)

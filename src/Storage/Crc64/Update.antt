-- ===== src/Storage/Crc64/Update.antt =====
-- `Crc64::Update`. An unsigned integer is a number below its bound, `& 0xff` is a remainder and `>> 8`
-- a division. The eight bytes behind a pointer to `uint64_t` are read as a little-endian machine does.
mod Entries
pub mod Reference
mod Combine
mod Groups
pub mod Equivalence
use azure_sdk_for_cpp.Base.{
  ℕ, zero, suc, ◌+◌, ◌-◌, ◌*◌, ◌/◌, ◌%◌, ◌^◌, List, [], ◌∷◌, ◌++◌, if◌then◌else◌, leb, Bytes,
  length, take, drop, get_or,
}
use azure_sdk_for_cpp.Storage.Crc64.Xor.{◌⊕◌}
use azure_sdk_for_cpp.Storage.Crc64.Tables.{
  Bytes.mu1, Rows01.mu32_row0, Rows01.mu32_row1, Rows23.mu32_row2, Rows23.mu32_row3,
  Rows45.mu32_row4, Rows45.mu32_row5, Rows67.mu32_row6, Rows67.mu32_row7,
}

-- `m_context` and `m_length`.
pub record Crc64 : Type 0 where
  pub context : ℕ
  pub length : ℕ

abbrev pub ones : ℕ
ones = 2 ^ 64 - 1

-- `Crc64MU1[i]`.
unfoldable pub byte_entry : ℕ → ℕ
byte_entry i = get_or mu1 i 0

-- `Crc64MU32`, of eight rows.
unfoldable pub mu32 : List ℕ
mu32 =
    mu32_row0
    ++ (mu32_row1
        ++ (mu32_row2 ++ (mu32_row3 ++ (mu32_row4 ++ (mu32_row5 ++ (mu32_row6 ++ mu32_row7))))))

-- `Crc64MU32[row * 256 + i]`.
unfoldable pub row_entry : ℕ → ℕ → ℕ
row_entry row i = get_or mu32 (row * 256 + i) 0

-- A byte after the groups of 32.
unfoldable pub update_byte : ℕ → ℕ → ℕ
update_byte crc d = crc / 256 ⊕ byte_entry ((crc ⊕ d) % 256)

unfoldable pub update_bytes : Bytes → ℕ → ℕ
update_bytes [] crc = crc
update_bytes (d ∷ ds) crc = update_bytes ds (update_byte crc d)

-- A line of the last group: `uCrc = (uCrc >> 8) ^ Crc64MU1[uCrc & 0xff]`.
unfoldable pub shift_byte : ℕ → ℕ
shift_byte crc = crc / 256 ⊕ byte_entry (crc % 256)

unfoldable pub shift_bytes : ℕ → ℕ → ℕ
shift_bytes zero crc = crc
shift_bytes (suc n) crc = shift_bytes n (shift_byte crc)

-- The bytes of a word, the lowest first.
unfoldable pub word : Bytes → ℕ
word [] = 0
word (d ∷ ds) = d + 256 * word ds

-- `wdata[i]`.
unfoldable pub word_at : ℕ → Bytes → ℕ
word_at i bytes = word (take 8 (drop (8 * i) bytes))

-- `uCrc0` to `uCrc3`.
pub record Lanes : Type 0 where
  pub crc0 : ℕ
  pub crc1 : ℕ
  pub crc2 : ℕ
  pub crc3 : ℕ

-- The lines for the rows from `row` down to 0, on one of the words.
unfoldable pub lane_rows : ℕ → ℕ → ℕ → ℕ
lane_rows zero b crc = crc ⊕ row_entry 0 (b % 256)
lane_rows (suc row) b crc = lane_rows row (b / 256) (crc ⊕ row_entry (suc row) (b % 256))

unfoldable pub lane : ℕ → ℕ
lane b = lane_rows 6 (b / 256) (row_entry 7 (b % 256))

-- The body of the loop over the groups.
unfoldable pub lanes_round : Bytes → Lanes → Lanes
lanes_round bytes lanes = record {
  crc0 = lane (word_at 0 bytes ⊕ lanes.crc0);
  crc1 = lane (word_at 1 bytes ⊕ lanes.crc1);
  crc2 = lane (word_at 2 bytes ⊕ lanes.crc2);
  crc3 = lane (word_at 3 bytes ⊕ lanes.crc3);
}

unfoldable pub lanes_rounds : ℕ → Bytes → Lanes → Lanes
lanes_rounds zero bytes lanes = lanes
lanes_rounds (suc n) bytes lanes = lanes_rounds n (drop 32 bytes) (lanes_round bytes lanes)

-- The last group of 32 bytes.
unfoldable pub last_group : Bytes → Lanes → ℕ
last_group bytes lanes =
    let first = shift_bytes 8 (0 ⊕ (word_at 0 bytes ⊕ lanes.crc0)) in
    let second = shift_bytes 8 (first ⊕ (word_at 1 bytes ⊕ lanes.crc1)) in
    let third = shift_bytes 8 (second ⊕ (word_at 2 bytes ⊕ lanes.crc2)) in
    shift_bytes 8 (third ⊕ (word_at 3 bytes ⊕ lanes.crc3))

-- The groups, `stop` bytes of them, and where the pointer stands for the last of them.
unfoldable pub update_groups : ℕ → Bytes → ℕ → ℕ
update_groups stop bytes crc =
    last_group (drop (stop - 32) bytes)
      (lanes_rounds ((stop - 32) / 32) bytes (record { crc0 = crc; crc1 = 0; crc2 = 0; crc3 = 0 }))

unfoldable pub update_crc : Bytes → ℕ → ℕ
update_crc bytes crc =
    let stop = length bytes - length bytes % 32 in
    if leb (2 * 32) stop
    then update_bytes (drop stop bytes) (update_groups stop bytes crc)
    else update_bytes bytes crc

unfoldable pub update : Bytes → Crc64 → Crc64
update bytes crc = record {
  context = update_crc bytes (crc.context ⊕ ones) ⊕ ones;
  length = (crc.length + length bytes) % 2 ^ 64;
}

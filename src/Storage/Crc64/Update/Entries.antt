-- ===== src/Storage/Crc64/Update/Entries.antt =====
-- The entries of the tables of crypt.cpp.
use azure_sdk_for_cpp.Base.{
  ℕ, ◌+◌, ◌*◌, ◌<◌, ◌≡◌, refl, true, ◌==◌, ==_iff, every_below, every_below-test,
}
use azure_sdk_for_cpp.Storage.Crc64.Step.{step, steps, feedback}
use azure_sdk_for_cpp.Storage.Crc64.Tables.{
  Bytes.mu1, Rows01.mu32_row0, Rows01.mu32_row1, Rows23.mu32_row2, Rows23.mu32_row3,
  Rows45.mu32_row4, Rows45.mu32_row5, Rows67.mu32_row6, Rows67.mu32_row7,
}
use azure_sdk_for_cpp.Storage.Crc64.Update.{byte_entry, row_entry, mu32}

byte_table : every_below (λ i. byte_entry i == steps 8 i) 256 ≡ true
unfolding every_below byte_entry mu1 steps step feedback
byte_table = refl

pub byte_entry-steps : (i : ℕ) → i < 256 → byte_entry i ≡ steps 8 i
byte_entry-steps i p =
    (==_iff _ _).0 (every_below-test (λ k. byte_entry k == steps 8 k) 256 i p byte_table)

row_table :
    every_below (λ row. every_below (λ i. row_entry row i == steps (200 + 8 * row) i) 256) 8 ≡ true
unfolding every_below row_entry mu32 mu32_row0 mu32_row1 mu32_row2 mu32_row3 mu32_row4 mu32_row5
    mu32_row6 mu32_row7 steps step feedback
row_table = refl

-- The entries of a row move a byte over 25 bytes and one more for each row below.
pub row_entry-steps : (row i : ℕ) → row < 8 → i < 256 → row_entry row i ≡ steps (200 + 8 * row) i
row_entry-steps row i q p = (==_iff _ _).0 (
    every_below-test (λ k. row_entry row k == steps (200 + 8 * row) k) 256 i p
      (every_below-test (λ r. every_below (λ k. row_entry r k == steps (200 + 8 * r) k) 256) 8 row q
        row_table))

-- ===== src/Ckpt/Tests/Code.antt =====
-- The theorem on `loadelf`, at a program with a segment of data and one of code, at 0x10000 from
-- place 0x1000 of the file on, of which the checkpoint uses 4 bytes at 0x10004 and 8 at 0x10010.
use boom_stop.Base.{ℕ, zero, suc, ◌+◌, ◌≤◌, ◌<◌, ◌≡◌, refl, false, some, inl, ◌⊎◌, arith}
use boom_stop.Ckpt.{read_le, write_le}
use boom_stop.Ckpt.Log.{Apart}
use boom_stop.Ckpt.Stream.{CkptFile, Os, fread_u64, map_zero}
use boom_stop.Ckpt.Elf.{loadelf, text_range, segment_prot, is_code_segment}
use boom_stop.Ckpt.Elf.Text.{Loadable, HasCode, range, segment_place}
use boom_stop.Ckpt.Elf.Loaded.{FirstCode, headers_read, listed, header_read, loadelf-HasCode}

abbrev zeros : ℕ → ℕ
zeros = λ _. 0

-- e_phoff, e_phentsize and e_phnum; type, flags, offset, address and sizes of two headers; code.
abbrev program : ℕ → ℕ
program = write_le 32 8 64 (
    write_le 54 2 56 (
      write_le 56 2 2 (
        write_le 64 4 1 (
          write_le 68 4 6 (
            write_le 96 8 16 (
              write_le 104 8 16 (
                write_le 120 4 1 (
                  write_le 124 4 5 (
                    write_le 128 8 0x1000 (
                      write_le 136 8 0x10000 (
                        write_le 152 8 0x100 (
                          write_le 160 8 0x100 (
                            write_le 0x1004 4 0x00000073
                              (write_le 0x1010 8 0x0000806700000013 zeros))))))))))))))

abbrev fp : CkptFile
fp = record { content = program; size = 0x1100; pos = 0 }

abbrev ranges : CkptFile
ranges = record {
  content =
      write_le 0 8 2
        (write_le 8 8 0x10004 (write_le 16 8 4 (write_le 24 8 0x10010 (write_le 32 8 8 zeros))));
  size = 40;
  pos = 0;
}

abbrev kernel : Os
kernel = record { place = λ hint _. hint; fixed = λ addr _. addr }

abbrev header : ℕ → ℕ
header = header_read kernel zeros zeros zeros ranges fp zeros

abbrev list : ℕ → ℕ
list = listed kernel zeros zeros zeros ranges fp zeros

abbrev phdr : ℕ → ℕ
phdr = headers_read header zeros fp 2

below_two : (P : ℕ → Type 0) → P 0 → P 1 → (i : ℕ) → i < 2 → P i
below_two P a b zero low = a
below_two P a b (suc zero) low = b
below_two P a b (suc (suc i)) low = absurd (omega arith)

first_not : (k : ℕ) → k < 1 → is_code_segment (headers_read header zeros fp (suc k)) ≡ false
unfolding read_le segment_prot
first_not zero low = refl
first_not (suc k) low = absurd (omega arith)

second_code : FirstCode header zeros fp 1
unfolding read_le segment_prot
second_code = record { present = omega arith; is_code = refl; earlier = first_not }

two_ranges : Loadable list 2 phdr fp
unfolding read_le fread_u64
two_ranges = record {
  apart =
      below_two
        (λ j.
          Apart 0x150000 0x150020 ((range list 2 phdr fp j).addr) ((range list 2 phdr fp j).size))
        (inl (omega arith)) (inl (omega arith));
  separate = λ j k l h.
      below_two (λ j. (k : ℕ) → j < k → k < 2 → Before j k)
        (λ k l h.
          below_two (λ k. 0 < k → Before 0 k) (λ l. absurd (omega arith)) (λ l. inl (omega arith)) k
            h l)
        (λ k l h. absurd (omega arith)) j (omega arith) k l h;
  inside =
      below_two
        (λ j.
          segment_place phdr ((range list 2 phdr fp j).addr) + (range list 2 phdr fp j).size
          ≤ fp.size)
        (omega arith) (omega arith);
  in_segment =
      below_two (λ j. read_le phdr 16 8 ≤ (range list 2 phdr fp j).addr) (omega arith)
        (omega arith);
  short = omega arith;
}
  where
    Before : (j k : ℕ) → Type 0
    Before j k =
        ((range list 2 phdr fp j).addr + (range list 2 phdr fp j).size
          ≤ (range list 2 phdr fp k).addr)
        ⊎ ((range list 2 phdr fp k).addr + (range list 2 phdr fp k).size
            ≤ (range list 2 phdr fp j).addr)

loadelf-HasCode_example :
    (after : ℕ → ℕ) × (loadelf kernel zeros zeros zeros ranges fp zeros ≡ some after)
    × HasCode list 2 phdr fp 0 (map_zero 0x10004 0x1014 list) after
unfolding fread_u64 text_range read_le
loadelf-HasCode_example =
    loadelf-HasCode kernel zeros zeros zeros ranges fp zeros 1 (omega arith) refl
      (inl (omega arith)) second_code two_ranges

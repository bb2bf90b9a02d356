-- ===== src/Tests/FileFlags.antt =====
-- Theorems on attributes and on the operations of Windows, at small numbers.
use asio_extensions.Prelude.{
  ℕ, ◌≡◌, ◌≢◌, refl, sym, ap, Bool, true, false, List, [], ◌∷◌, some, bit, ◌==◌, arith,
}
use asio_extensions.Posix.{Answer, returns, fails, no_error, eof}
use asio_extensions.Posix.Open.{is_valid}
use asio_extensions.FileAttrs.{Row}
use asio_extensions.FileAttrs
use asio_extensions.FileAttrs.Rows.{At}
use asio_extensions.FileAttrs.After.{combined, attributes_after}
use asio_extensions.Windows.{AttributeBits, rows}
use asio_extensions.Windows
use asio_extensions.Windows.Attributes.{windows_attributes_after}
use asio_extensions.Windows.Pointer.{
  PointerApi, PointerLaws, Sized, set_size_by_pointer, set_size_pointer,
}
use asio_extensions.Windows.OpenArgs.{
  Constants, OpenArgs, open_args, is_valid_args, creation_at, windows_open_args_lem,
}

-- UF_HIDDEN, UF_NODUMP and SF_IMMUTABLE, as on macOS
abbrev flag_rows : List Row
flag_rows = (0, 15) ∷ (3, 0) ∷ (6, 17) ∷ []

-- The file is hidden; adding `no_dump`.
attributes_after_example :
    (new : ℕ) × (FileAttrs.set_attributes flag_rows (returns 0x8000) (λ v. returns 0) 8 2
      ≡ (no_error, some new))
    × ((k u : ℕ)
        → At flag_rows k u
        → bit k (FileAttrs.attributes flag_rows (returns new)).0
          ≡ combined 2 (bit k (FileAttrs.attributes flag_rows (returns 0x8000)).0) (bit k 8))
attributes_after_example =
    attributes_after flag_rows (λ v. returns 0) 0x8000 8 2 refl refl (λ v. refl) (omega arith)

abbrev bits : AttributeBits
bits = record { readonly = 0; normal = 7; hidden = 1; system_file = 2; not_content_indexed = 13 }

-- A hidden, read-only file is made a system file.
windows_attributes_after_example :
    (new : ℕ) × (Windows.set_attributes bits (returns 3) (λ v. returns 1) 2 1 eof ≡ (eof, some new))
    × ((k u : ℕ)
        → At (rows bits) k u
        → bit k (Windows.attributes bits (returns new)).0
          ≡ combined 1 (bit k (Windows.attributes bits (returns 3)).0) (bit k 2))
    × (bit 0 new ≡ combined 1 (bit 0 3) false)
windows_attributes_after_example =
    windows_attributes_after bits (λ v. returns 1) 3 2 1 eof refl refl (λ v. refl) (omega arith)

-- A file whose state is its pointer and its size, and whose calls all succeed.
abbrev plain_file : PointerApi
plain_file = record {
  State = ℕ × ℕ;
  move_by = λ n s. (returns s.0, s);
  move_to = λ n s. (returns n, (n, s.1));
  set_end = λ s. (returns 1, (s.0, s.0));
  last_error = λ s. 0;
}

abbrev value : Answer → ℕ
value (returns r) = r
value (fails e) = e

abbrev succeeds : Answer → Bool
succeeds (returns r) = true
succeeds (fails e) = false

never : true ≢ false
never e = cc

abbrev plain_laws : PointerLaws plain_file
plain_laws = record {
  pointer = λ s. s.0;
  size = λ s. s.1;
  tells = λ s s' r e. sym (ap (λ (p : Answer × plain_file.State). value p.0) e);
  stays = λ s. (refl, refl);
  moves = λ n s s' r e. sym (ap (λ (p : Answer × plain_file.State). (p.1).0) e);
  stops = λ n s s' x e. absurd (never (ap (λ (p : Answer × plain_file.State). succeeds p.0) e));
  same_size = λ n s. refl;
  ends = λ s s' r e. sym (ap (λ (p : Answer × plain_file.State). (p.1).1) e);
  keeps = λ s s' x e. absurd (never (ap (λ (p : Answer × plain_file.State). succeeds p.0) e));
  same_pointer = λ s. refl;
}

set_size_pointer_example :
    Sized plain_file plain_laws 10 (4, 7) (set_size_by_pointer plain_file 10 (4, 7))
set_size_pointer_example = set_size_pointer plain_file plain_laws 10 (4, 7)

abbrev constants : Constants
constants = record {
  create_new = 1;
  create_always = 2;
  open_existing = 3;
  open_always = 4;
  truncate_existing = 5;
  file_flag_overlapped = 0x40000000;
  generic_read = 31;
  generic_write = 30;
  file_share_read = 0;
  file_share_write = 1;
}

abbrev unset : OpenArgs
unset = record {
  creation_disposition = 0;
  desired_access = 0;
  share_mode = 0;
  attrs = 0;
  flags = 0;
}

creation_fine : (d : ℕ) → (creation_at constants d == 0xffffffff) ≡ false
creation_fine d = ground arith

-- Reading and writing a file that is always created, hidden, and not written by others meanwhile.
windows_open_args_lem_example :
    let args = open_args constants bits unset 0x10b 0x1b6 1 in
    (is_valid_args args ≡ true)
    × (args.creation_disposition ≡ 2)
    × (bit 31 args.desired_access ≡ true)
    × (bit 30 args.desired_access ≡ true)
    × (bit 0 args.share_mode ≡ true)
    × (bit 1 args.share_mode ≡ false)
    × (bit 0 args.attrs ≡ false)
    × ((k u : ℕ) → At (rows bits) k u → bit u args.attrs ≡ bit k 1)
unfolding is_valid
windows_open_args_lem_example =
    windows_open_args_lem constants bits unset 0x10b 0x1b6 1 (omega arith) refl creation_fine refl
      refl (omega arith) (omega arith) refl refl

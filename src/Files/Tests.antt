-- ===== src/Files/Tests.antt =====
-- Runs of fs/vfs_syscall.c on a process with three open descriptors.
use usc_projects.Prelude.{
  ◌+◌, ℕ, zero, suc, ◌≡◌, refl, Option, none, some, List, [], ◌∷◌, ◌==◌, if◌then◌else◌, arith,
}
use usc_projects.Kernel.{Returns, done}
use usc_projects.Files.{File, Vnode, Process, do_close, do_dup, do_dup2}
use usc_projects.Files.Counted.{Counted}
use usc_projects.Files.Close.{Closed, do_close-Closed}
use usc_projects.Files.Dup.{Lowest, Dupped, do_dup-Dupped}
use usc_projects.Files.Dup2.{Dupped2, do_dup2-Dupped2}
use usc_projects.Files.Io.{seek_end, do_lseek, do_read, do_getdent}
use usc_projects.Files.Io.Seek.{Sought, do_lseek-Sought}
use usc_projects.Files.Io.Read.{Read, do_read-Read}
use usc_projects.Files.Io.Getdent.{Entry, do_getdent-Entry}
use usc_projects.Files.Write.{do_write}
use usc_projects.Files.Write.Position.{Wrote, do_write-Wrote}

abbrev empty_slots : ℕ → List (Option ℕ)
empty_slots zero = []
empty_slots (suc n) = none ∷ empty_slots n

-- A regular file of 100 bytes, of which a read gives what was asked for.
abbrev regular : Vnode
regular = record {
  vn_len = 100;
  vn_mode = 0x800;
  read = some (λ pos nbytes. nbytes);
  readdir = none;
  write = some (λ pos nbytes. (nbytes, pos + nbytes));
}

abbrev open_file : ℕ → File
open_file refs = record { f_pos = 10; f_mode = 1; f_refcount = refs; f_vnode = some 3 }

-- Descriptors 0 and 1 share file 7, and descriptor 3 is file 9.
abbrev process : Process
process = record {
  p_files = some 7 ∷ some 7 ∷ none ∷ some 9 ∷ empty_slots 28;
  files = λ f. if f == 7 then some (open_file 2) else if f == 9 then some (open_file 1) else none;
  vnodes = λ n. regular;
  vputs = [];
  slab = none;
}

process-Counted : Counted [] process
process-Counted = record { sized = refl; counted = λ f. ground arith; opened = λ f. ground arith }

do_close-Closed_example : Returns (λ r. Closed 3 (some 9) [] process r) (do_close 3 process)
do_close-Closed_example = do_close-Closed 3 [] process process-Counted

do_dup-Dupped_example :
    Returns
      (λ r.
        (empty : Option ℕ) × Lowest 0 (some 7 ∷ some 7 ∷ none ∷ some 9 ∷ empty_slots 28) empty
        × Dupped (some 7) empty [] process r)
      (do_dup 1 process)
do_dup-Dupped_example = do_dup-Dupped 1 [] process process-Counted

do_dup2-Dupped2_example :
    Returns (λ r. Counted [] r.1 × Dupped2 3 (some 7) [] process r) (do_dup2 0 3 process)
do_dup2-Dupped2_example = do_dup2-Dupped2 0 3 [] process process-Counted (λ e. omega (arith, e))

do_lseek-Sought_example :
    Returns
      (λ r. Counted [] r.1 × Sought 5 seek_end (some 7) process r)
      (do_lseek 0 5 seek_end process)
do_lseek-Sought_example = do_lseek-Sought 0 5 seek_end [] process process-Counted

do_read-Read_example :
    Returns (λ r. Counted [] r.1 × Read 20 (some 7) process r) (do_read 0 20 process)
do_read-Read_example = do_read-Read 0 20 [] process process-Counted

-- A directory with room for two entries, of which the second was read.
abbrev directory : Process
directory = record process {
  vnodes = λ n. record regular { vn_mode = 0x200; readdir = some λ pos. 0 };
}

directory-Counted : Counted [] directory
directory-Counted = record { sized = refl; counted = λ f. ground arith; opened = λ f. ground arith }

do_getdent-Entry_example :
    Returns (λ r. Counted [] r.1 × Entry (some 9) directory r) (do_getdent 3 directory)
do_getdent-Entry_example = do_getdent-Entry 3 [] directory directory-Counted

-- File 9 is open for appending.
abbrev log : File
log = record (open_file 1) { f_mode = 6 }

abbrev logging : Process
logging = record process {
  files = λ f. if f == 7 then some (open_file 2) else if f == 9 then some log else none;
}

logging-Counted : Counted [] logging
logging-Counted = record { sized = refl; counted = λ f. ground arith; opened = λ f. ground arith }

do_write-Wrote_example :
    Returns
      (λ r. Counted [] r.1 × ((r.0 ≡ done 20) × Wrote 9 3 120 120 log logging r.1))
      (do_write 3 20 logging)
do_write-Wrote_example =
    do_write-Wrote 3 9 3 20 20 120 log (λ pos nbytes. (nbytes, pos + nbytes)) [] logging
      logging-Counted refl refl refl refl refl refl (omega arith) refl (omega arith) (omega arith)

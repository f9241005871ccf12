-- ===== src/Messages.antt =====
-- The messages of src/messages.c and src/messages.h: what is printed and what is reported. The texts
-- are those of the child.
pub mod Texts
pub mod OneLine
use rrep.Base.{ℕ, List}

-- The error codes that rrep_error takes.
pub data ErrCode : Type 0 where
  process_arg process_dir pattern unknown_escape save_dir alloc_suffix alloc_buffer : ErrCode
  alloc_filebuffer alloc_filelist alloc_pathbuffer alloc_pattern alloc_replacement : ErrCode
  alloc_backup realloc_buffer realloc_filebuffer memory open_read open_write open_dir : ErrCode
  read_file read_temp write_backup overwrite keep_times : ErrCode

-- What is printed to standard output: the name of a file in a dry run, the question before a change,
-- the confirmation, a directory that is omitted; the header of a dry run, the version, the help, and
-- the hint at it.
pub data Message : Type 0 where
  listed asked confirmed skipped : List ℕ → Message
  simulation version help invocation : Message

-- What is reported to standard error: by rrep_error, or by print_regerror.
pub data Report : Type 0 where
  coded : ErrCode → List ℕ → Report
  regex : ℕ → Report

-- ===== src/Options.antt =====
-- The option flags of src/rrep.h, one field for each bit of `options`.
use rrep.Base.{Bool, false}

pub record Options : Type 0 where
  pub all : Bool
  pub backup : Bool
  pub binary : Bool
  pub dry : Bool
  pub fixed : Bool
  pub keep_times : Bool
  pub no_messages : Bool
  pub prompt : Bool
  pub quiet : Bool
  pub recursive : Bool
  pub whole_line : Bool
  pub whole_word : Bool

-- `int options = 0;`
abbrev pub no_options : Options
no_options = record {
  all = false;
  backup = false;
  binary = false;
  dry = false;
  fixed = false;
  keep_times = false;
  no_messages = false;
  prompt = false;
  quiet = false;
  recursive = false;
  whole_line = false;
  whole_word = false;
}

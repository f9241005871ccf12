-- ===== src/Main/Steps.antt =====
-- Properties of a state and of how main ends that hold at each of its ends hold for what follows the
-- options.
use rrep.Base.{
  ℕ, Bool, true, Option, none, some, List, [], if_both, length, ◌*◌, ◌+◌, ◌<◌, ◌≤◌, arith,
}
use rrep.Messages.{ErrCode, Report, coded, regex, invocation}
use rrep.Bufferio.{init_buffer_size}
use rrep.Bufferio.Memory.{Block}
use rrep.Heap.{Heap}
use rrep.Pattern.{Engine, Pattern}
use rrep.Pattern.Parse
use rrep.Pattern.Parse.{parse_pattern}
use rrep.Pattern.Parse.Nonempty.{SomePattern, parse_pattern_some}
use rrep.Replacement
use rrep.Replacement.{Replace, parse_replace}
use rrep.World.{Name, success, failure, aborted}
use rrep.Names.{Excludes}
use rrep.Walk.{Walk, rrep_error, print}
use rrep.CommandLine.{Args, Strings}
use rrep.Main.{
  Input, Outcome, undefined, ends, print_regerror, report, process, after_replacement,
  after_pattern, new_buffer, with_strings, with_files, with_method, with_backups, with_suffix,
  after_options,
}

module _ (E : Engine) (X : Excludes) (alloc : ℕ → Bool) (regex_size : ℕ) (garbage : Block)
    (heap : Heap) (input : Input) (a : Args X) (P : Walk → Outcome → Type 0) where
  -- The ends of main, and the one step that changes the state between them.
  pub record MainSteps : Type 0 where
    pub fails :
        (e : ErrCode) (name : Name) (s : Walk) → P s (ends failure (rrep_error a.options e name s))
    pub bad_regex : (e : ℕ) (s : Walk) → P s (ends failure (print_regerror e s))
    pub hint : (s : Walk) → P s (ends failure (print invocation s))
    pub quits : (s : Walk) → P s (ends success s)
    pub gives_up : (s : Walk) → P s (ends aborted s)
    pub is_wild : (s : Walk) → P s (record { exit = undefined; state = s; stdout = [] })
    pub buffered :
        (s : Walk) (x : Outcome)
        → P (new_buffer E X alloc regex_size garbage heap input a s) x
        → P s x
    pub processed :
        (no_backups : Bool) (list : List Name) (p : Pattern E) (r : Replace) (s : Walk)
        → 0 < length p.string
        → 2 ≤ s.world.reader.buffer_size
        → P s (process E X alloc regex_size garbage heap input a no_backups list p r s)

  module _ (st : MainSteps) where
    reported : (e : Report) (s : Walk) → P s (ends failure (report a.options e s))
    reported (coded e name) s = st.fails e name s
    reported (regex e) s = st.bad_regex e s

    after_replacement-P :
        (no_backups : Bool) (list : List Name) (p : Pattern E) (s : Walk) (x : Replacement.Parsed)
        → 0 < length p.string
        → 2 ≤ s.world.reader.buffer_size
        → P s (after_replacement E X alloc regex_size garbage heap input a no_backups list p s x)
    unfolding after_replacement
    after_replacement-P no_backups list p s (Replacement.parsed r) pos big =
        st.processed no_backups list p r s pos big
    after_replacement-P no_backups list p s (Replacement.rejected e text) pos big =
        st.fails e text s
    after_replacement-P no_backups list p s Replacement.overflow pos big = st.is_wild s

    after_pattern-P :
        (no_backups : Bool) (list : List Name) (r : List ℕ) (s : Walk) (x : Parse.Outcome E)
        → SomePattern E x
        → 2 ≤ s.world.reader.buffer_size
        → P s (after_pattern E X alloc regex_size garbage heap input a no_backups list r s x)
    unfolding after_pattern
    after_pattern-P no_backups list r s none pos big = st.is_wild s
    after_pattern-P no_backups list r s (some (Parse.parsed pattern, fields, h)) pos big =
        after_replacement-P no_backups list pattern s _ pos big
    after_pattern-P no_backups list r s (some (Parse.rejected e, fields, h)) pos big = reported e s

    with_strings-P :
        (no_backups : Bool) (x : Strings) (s : Walk)
        → P s (with_strings E X alloc regex_size garbage heap input a no_backups x s)
    unfolding with_strings
    with_strings-P no_backups (some p, some r, list) s =
        if_both (P s) (alloc init_buffer_size)
          (λ _. st.buffered s _ (
            after_pattern-P no_backups list r
              (new_buffer E X alloc regex_size garbage heap input a s) _
              (parse_pattern_some E alloc regex_size a.options p a.extended a.icase heap)
              (omega arith)))
          (λ _. st.fails _ [] s)
    with_strings-P no_backups (some p, none, list) s = st.hint s
    with_strings-P no_backups (none, r, list) s = st.hint s

    with_files-P :
        (no_backups : Bool) (s : Walk)
        → P s (with_files E X alloc regex_size garbage heap input a no_backups s)
    unfolding with_files
    with_files-P no_backups s =
        if_both (P s) (alloc (length input.arguments * 8)) (λ _. with_strings-P no_backups _ s)
          (λ _. st.fails _ [] s)

    with_method-P :
        (x : Option Bool) (s : Walk)
        → P s (with_method E X alloc regex_size garbage heap input a x s)
    unfolding with_method
    with_method-P none s = st.gives_up s
    with_method-P (some no_backups) s = with_files-P no_backups s

    with_backups-P : (s : Walk) → P s (with_backups E X alloc regex_size garbage heap input a s)
    unfolding with_backups
    with_backups-P s =
        if_both (P s) a.options.backup (λ _. with_method-P _ s) (λ _. with_files-P true s)

    with_suffix-P :
        (x : Option (List ℕ)) (s : Walk)
        → P s (with_suffix E X alloc regex_size garbage heap input a x s)
    unfolding with_suffix
    with_suffix-P none s = with_backups-P s
    with_suffix-P (some suffix) s =
        if_both (P s) (alloc (length suffix + 1)) (λ _. with_backups-P s) (λ _. st.fails _ [] s)

    pub after_options-P :
        (s : Walk) → P s (after_options E X alloc regex_size garbage heap input a s)
    unfolding after_options
    after_options-P s =
        if_both (P s) a.failure_flag (λ _. st.hint s)
          (λ _. if_both (P s) a.exit_flag (λ _. st.quits s) (λ _. with_suffix-P a.suffix_string s))

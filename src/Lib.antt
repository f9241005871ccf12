-- ===== src/Lib.antt =====
-- rrep, a search and replace utility (src/rrep.c, src/pattern.c, src/bufferio.c, src/messages.c).
--
-- The program and its parts. main parses the options, PATTERN and REPLACEMENT (parse_pattern,
-- parse_replace), and then copies standard input with replace_string or works on the files of the
-- command line. replace_string reads a file line by line with read_line, looks for PATTERN in the
-- line with match_pattern, and writes to a temporary stream or to file_buffer with write_string and
-- write_replacement.
--
-- The files.
--   Base: shared names, Boolean tests, lists over native numbers.
--   Options: the option bits of src/rrep.h, one field each.
--   Messages: the error codes of src/messages.h, what is printed and reported, and the texts of
--     src/messages.c (Messages/Texts).
--   Bufferio: read_line of src/bufferio.c. `Reader` holds the globals buffer and buffer_size and the
--     static variables; `File` is an open stream; a block of memory is a function from indices to
--     bytes (Bufferio/Memory). Bufferio/Lines says what the lines of a file are, Bufferio/Scan,
--     Search, Refill, Read and Calls lead from the loops of read_line to its calls.
--   EachLine: the loops of src/rrep.c over read_line; EachLine/Refine and EachLine/AnyFile prove that
--     they are loops over the lines of the file.
--   Pattern: check_whole and match_pattern of src/pattern.c. <regex.h> is the record `Engine`.
--   Replacement: parse_replace of src/pattern.c with its three swipes and its allocations;
--     Replacement/Lexing reads REPLACEMENT as characters, references and escapes, and
--     Replacement/Substitute says what it asks for.
--   Replace: write_string, write_replacement and replace_string of src/rrep.c; Replace/Global is the
--     plain search and replace that fixed strings implement; Replace/Expand says what
--     references write, Replace/Ends that the loops end; Replace/Pieces says which matches of a line a
--     regular expression replaces, Replace/Edits and Replace/EditedFile that replace_string does.
--   Heap: malloc and free on the set of the pointers in use; Pattern/Parse: parse_pattern and
--     free_pattern with it; Replacement/Release: free_replace; Replacement/Memory: what parse_replace
--     allocates and frees, beside its result in Replacement.
--   Names: check_include_name and check_name of src/rrep.c. The exclude module is the record
--     `Excludes`.
--   World: the files, the globals and the output as `World`, the answers of the system as `Os`, and
--     rrep_error and print_regerror of src/messages.c; their texts are those of Messages/Texts.
--   ProcessFile: process_file and backup_file of src/rrep.c; ProcessFile/CopyBack, Effects, Others,
--     Backup, Binary, Fixed, Reports and Rewrite say what a call changes and reports, ProcessFile/Ends that it
--     ends.
--   Walk: the state of process_dir: the world, the times of the files, and the working directory.
--   Directories: process_dir of src/rrep.c, as a recursion over the tree that readdir lists;
--     Directories/Induction proves what each step of it keeps for all of it, Directories/Unmoved and
--     KeptTimes which times it changes.
--   FileList: process_file_list of src/rrep.c.
--   CommandLine: the tables for getopt_long, the switch over the options, and the loop over the
--     remaining arguments, from main of src/rrep.c.
--   Main: main of src/rrep.c, one function for each of its stages; Main/Steps proves for all of main
--     what holds at each of its ends.
--   Tests: runs and instances.
--
-- Conventions. A byte is a number; a line is the list of its bytes, and reading behind it gives the
-- NUL that read_line puts there. realloc and malloc are a function that says which sizes they grant;
-- the bytes of fresh memory are arbitrary. A stream reads short only at its end or at a device error.
-- The device that process_file writes to takes a number of bytes; the temporary stream takes all.
--
-- A directory is a tree in which each file and each directory stands with the answers of the system
-- for it; process_file sees the files of the working directory under their names in it, and each
-- name in the state begins at the directory in which the program was started. Times change by the
-- answers of the system: process_file gives the file new times, and other files too (with --backup
-- the backup and its directory); readdir gives the working directory new times; utime sets them.
-- They are whole seconds. Links, and names with . and .. in them, are not resolved. getopt_long
-- gives the options with their arguments, in the order in which it returns them.
--
-- Fuel. read_line takes a round for each read and two more: each read that does not meet the end of
-- the file takes at least one byte. The loop over the lines takes a round for each byte and two
-- more. The search in a line passes over at least one character in each round, so one more than the
-- length of the line is enough; the loop of write_string gains 4096 bytes in each round.
-- match_pattern for a regular expression takes a round for each character and two more: a match of
-- no width moves it by one. Running out of fuel is an outcome of its own (out_of_fuel, starved,
-- out_of_rounds, stuck), which the results exclude for the whole program, whatever its files hold.
--
-- Not modelled: the fclose calls of process_file, the directories that process_dir holds open, and the
-- descriptor of process_file_list; the frees at the ends of main; the name that set_program_name makes;
-- translations and their set-up. The copy of gnulib under lib (with getopt, exclude, backupfile and
-- regex) is not modelled; what the program calls of it and of the C library beyond plain streams and
-- memory is a parameter.
pub mod Base
pub mod Options
pub mod Messages
pub mod Bufferio
pub mod EachLine
pub mod Heap
pub mod Pattern
pub mod Replacement
pub mod Replace
pub mod World
pub mod Names
pub mod ProcessFile
pub mod Walk
pub mod Directories
pub mod FileList
pub mod CommandLine
pub mod Main
mod Tests

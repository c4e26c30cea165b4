-- ===== src/Lib.antt =====
-- The text buffer of the kakoune editor: its lines, its undo tree and its log of changes, as
-- src/buffer.hh, src/buffer.inl.hh and src/buffer.cc keep them, and what follows the text
-- through the log (src/changes.cc) and keeps sets of lines (src/line_modification.cc); and the
-- texts that the editor takes apart: strings and UTF-8 (src/string_utils.cc, src/utf8.hh),
-- command lines (src/command_manager.cc), the parameters of commands
-- (src/parameters_parser.cc), colors (src/color.cc) and JSON (src/json.cc). On the buffer stand
-- the selections (src/selection.cc) and the list of jumps of a context (src/context.cc).
--
-- The parts and how they interact. A buffer holds its text as a vector of lines. The public
-- methods insert, erase and replace check that the buffer may be written, note a modification
-- in the pending undo group, and hand the work to do_insert and do_erase, which change the
-- lines and append to the log of changes. commit_undo_group turns the pending group into a node
-- of the undo tree; undo, redo and move_to walk in that tree and apply the groups of the nodes
-- they pass, or their inverses. The log of changes is what other parts of the editor read to
-- follow the text. A command line is cut into tokens by CommandParser::read_token, on the
-- functions on strings and UTF-8; CommandManager::execute gathers the tokens of a command and
-- runs it. Its parameters are parsed by ParametersParser against the switches that the command
-- describes. Selections follow the buffer by its log of changes, and a jump of the list of
-- jumps is a list of selections. The JSON functions read and print the messages of the JSON
-- user interface.
--
-- Files.
--
--   Prelude, Prelude/Tests, Prelude/Lists, Prelude/Int: Boolean tests, lists measured by native
--     numbers, and integers.
--   Coord: src/coord.hh, positions and their order.
--   Lines: the line vector and the functions on it, from src/buffer.inl.hh (next, prev,
--     distance, is_valid, is_end, back_coord, end_coord) and src/buffer.cc (clamp, string,
--     advance, do_insert, do_erase). A line is the list of its bytes. The proofs are below it:
--     Lines/View (the text and its two parts at a coordinate), Lines/WellFormed (what
--     check_invariant asks for), Lines/Insert, Lines/Erase, and Lines/Navigate (coordinates as
--     offsets).
--   Modification: Buffer::Modification, its inverse, and the groups of them. Modification/Laws
--     and Modification/Inverse prove that undoing gives the lines back.
--   Buffer: the state of class Buffer as a record, the constructor, insert, erase, replace and
--     the application of modifications. A method that throws returns an error value.
--     Buffer/Fields, Buffer/Edit, Buffer/Text, Buffer/Around and Buffer/Replace hold the
--     proofs.
--   History: commit_undo_group, undo, redo, move_to, is_modified and notify_saved.
--     History/Invariant says what the tree stands for (lines for each node), the other files
--     below it prove what each operation does to that, and History/Session, History/Steps and
--     History/Restore treat sequences of calls as a step relation.
--   Changes: ForwardChangesTracker and the sorted runs of changes from src/changes.cc, and
--     changes_since. Changes/Track and Changes/Shift prove what the tracker computes,
--     Changes/Log, Changes/Groups, Changes/Moves and Changes/Sessions that the log of any
--     session describes how the text changed, Changes/Order that positions keep their order,
--     and Changes/Runs treats the runs.
--   LineRangeSet: add_range and remove_range of LineRangeSet in src/line_modification.cc;
--     LineRangeSet/Add and LineRangeSet/Union treat the first, LineRangeSet/Remove the second.
--   Prelude/Bytes: byte strings.
--   Strings: src/string_utils.hh, src/string_utils.cc and the decimal numerals of src/format.cc
--     (escape, unescape, double_up, indent, prefix_match, replace, join, quote, shell_quote,
--     subsequence_match, str_to_int_ifp, to_string). Strings/Escape, Strings/Match,
--     Strings/Numerals, Strings/Quote and Strings/Join hold the proofs; Strings/Quote also has
--     the quoting rules of the POSIX shell as a reading function.
--   Utf8: src/utf8.hh (is_character_start, read_codepoint, codepoint_size, dump, to_next,
--     finish, advance, distance, character_start, to_previous); Utf8/RoundTrip is about one
--     code point, Utf8/Moves about texts.
--   Commands: the parsers of src/command_manager.cc on the bytes that are left (parse_quoted,
--     parse_quoted_balanced, parse_unquoted, token_type, skip_blanks_and_comments,
--     compute_coord). Commands/Reader has parse_percent_token and read_token, Commands/Expand
--     expand_impl, Commands/Execute the loop of CommandManager::execute. Commands/Quoted,
--     Commands/Balanced, Commands/Unquoted, Commands/Blanks and Commands/Progress hold the
--     proofs on tokens, Commands/Execute/Ends and Commands/Execute/Words those on the loop.
--   JumpList: struct JumpList of src/context.hh and src/context.cc. JumpList/Bounds is about
--     the current index, JumpList/Forget about forget_buffer.
--   Parameters: ParametersParser of src/parameters_parser.hh and src/parameters_parser.cc, its
--     constructor and get_switch. Parameters/Invariant is about what a parse keeps,
--     Parameters/Positional about positional parameters, Parameters/Ignoring about a parse that
--     ignores errors.
--   Color: src/color.hh and src/color.cc, with hex of src/format.cc for a byte. Color/RoundTrip
--     is about printing and reading, Color/Reads about what is read.
--   Json: the values and the parser of src/json.cc; Json/Print has to_json of src/json.hh and
--     src/json.cc. Json/Fuel and Json/Ends are about the end of the parser, Json/Scan,
--     Json/Reads, Json/Texts, Json/Keys, Json/Rounds and Json/RoundTrip about reading what was
--     printed, Json/Errors about texts that are refused or changed.
--   Selections: class Selection and the free functions on vectors of them in src/selection.hh
--     and src/selection.cc (overlaps, compare_selections, merge_overlapping, sort_selections,
--     clamp_selections), with SelectionList::remove and remove_from. Selections/Order,
--     Selections/Merge and Selections/Main are about merging, Selections/Sort and
--     Selections/SortMain about sorting, Selections/Lists about removing. Selections/Update has
--     update_range, update_forward and update_backward of src/changes.hh and update_selections;
--     Selections/Update/LowerBound is about the search of update_forward,
--     Selections/Update/Alone and Selections/Update/Run compare the walk of all ends with each
--     end alone, Selections/Update/Order, Selections/Update/OrderBack and
--     Selections/Update/Merging are about the order of the selections behind a run,
--     Selections/Update/Whole puts the runs together, and Selections/Update/Bounds is about the
--     selections after update_selections.
--   Tests: runs on a small buffer, on small texts and on small states.
--
-- Numbers. LineCount and ByteCount are signed 32-bit counts in the source. The modelled
-- functions take and return positions that are not negative, so natural numbers stand for them;
-- buffers of more than 2^31 - 1 lines or bytes in a line are out of the model. The count of
-- advance and the result of distance are integers. The unsigned sum of str_to_int_ifp wraps at
-- 2^32, and its result is the int with those bits. A byte is a number, and a code point an
-- unsigned one of 32 bits; masks and shifts are quotients and remainders by powers of two.
--
-- Fuel. The loops that climb in the undo tree run on the number of nodes as fuel. A node's
-- parent is older than the node (this is part of the invariant that each operation keeps), so
-- no loop makes as many steps as there are nodes, and the theorems on move_to and
-- find_lowest_common_parent show that the result is the one that is meant. The counts of undo
-- and redo are their own bound. The loop of update_selections over the runs of changes has a
-- round for each change; a run has one change at least, and the rounds are shown to pass all
-- changes. The search of update_forward, a std::lower_bound, halves what is left, so the number
-- of selections is enough. The parser of JSON has two rounds for each byte and one more, and
-- the loop of execute a round for each byte and one more; both are shown to end within them.
-- parse_quoted and skip_blanks_and_comments have a round for each byte, and each round takes
-- one.
--
-- Parameters. Whether a code point is a letter (iswalpha) is asked of the C library; what a
-- command does and what an expansion other than a plain string gives is not decided in the loop
-- that executes them; the list of jumps takes operator==, the buffer and the update of a jump
-- from outside. These are arguments of the definitions that use them, and nothing is assumed of
-- them.
--
-- Not modelled: hooks, options, names, file status and the time stamps of nodes; reload; UTF-8
-- movement in a buffer (char_next, char_prev); and the parts of the editor around the buffer.
pub mod Prelude
pub mod Coord
pub mod Strings
pub mod Utf8
pub mod Lines
pub mod Modification
pub mod Buffer
pub mod History
pub mod Changes
pub mod LineRangeSet
pub mod Selections
pub mod JumpList
pub mod Commands
pub mod Parameters
pub mod Color
pub mod Json
pub mod Tests

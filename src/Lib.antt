-- ===== src/Lib.antt =====
-- EMI Analyzer: the worker's own logic, translated from worker/emi_worker (Python), and what holds of it.
--
-- The worker takes runs from a server, reads the board of a run, checks and solves it, and reports back.
-- Its run loop (worker/emi_worker/runner.py) receives runs by push and by poll, keeps each in hand once,
-- and carries it from the token to the report; a run's scratch directory is named by its id
-- (worker/emi_worker/scratch.py). An ingest run reads the board file as an s-expression
-- (worker/emi_worker/kicad/sexpr.py), or copper islands of Gerber layers
-- (worker/emi_worker/raster.py). A compliance run compares with the limits of a standard
-- (worker/emi_worker/compliance/limits.py) and ends in a gate that withholds a margin while an input is
-- missing (worker/emi_worker/compliance/completeness.py). The rules take differential pairs from the names
-- of the nets (worker/emi_worker/kicad/netclass.py), and a part's package from its footprint's name
-- (worker/emi_worker/components/match.py). A driver document is read and resolved to the voltage that it
-- pushes at each frequency (worker/emi_worker/drivers).
--
-- Files:
--
-- Base: names, lists, text as code points, Python's sorted. Text is a list of code points; is_space is
--   the class \s of re.
-- Sexpr: kicad/sexpr.py. Tokens is _TOKEN, _ESCAPES and _tokens, whose generator is the data type Stream,
--   so that a bad character is met only when the reader gets there; Parser is _NUMBER and parse; Navigate
--   is sym (symbol), children, child, values, value, number, text, flag and points. A node is a list of
--   texts, numbers and nodes (Tree). Writer, Events and Accepts state what parse does, and
--   Ends what the loop of _tokens does.
-- Scratch: scratch.py. The two patterns, valid_run_id, the test of run_dir (path_safe) and the selection
--   of clear_leftovers.
-- Runner: runner.py. Queue is the state that the threads share, the work threads (idle_workers is those that run
--   creates), and the steps they make on it: _enqueue is accepts, mark and put, _work_loop is get and end_run, and _on_ws_message is on_ws_message. Exec is the
--   state with exceptions, and Execute is _execute, _run_claimed (run_claimed), _fail (fail) and
--   _user_error.
-- Raster: _UnionFind of raster.py.
-- Completeness: check and complete of compliance/completeness.py.
-- NetClass: kicad/netclass.py. find_pairs with its search loop (try_net is the body of the inner loop),
--   split_pair_name, and NetClasses.of (class_of) and NetClasses.spec.
-- Components: components. Package is parse_package of match.py: _STANDARD, _BARE, IMPERIAL_TO_METRIC and
--   the function; past_colon is split(":", 1). Farads is cap_farads of rules/decoupling.py. Document is
--   the records and methods of document.py, Python the conversions that they make of a document's values,
--   and Parse is parse. Resolve is match_part and resolve.py: resolve_part takes what built_in returns as
--   library, and try_number and try_value are the bodies of its two loops.
-- Limits: compliance/limits.py. make_standard is what _parse checks of one standard, find_standard is
--   standard, covers, level_at and range_hz are the methods of Segment and Standard, and limit_at, in_range,
--   detector_at, peak_limit_at and scan_to_hz take the standard or the rules that the tables give.
-- Drivers: drivers. Spectrum is the pulse train of spectrum.py and its series, Document is parse and the
--   accessors of document.py, Resolve is resolve of resolve.py with its three kinds, and Apply is
--   apply_driver of apply.py, with offset_at as the body of its loop. Base.Json is the
--   values of Python's json.
-- Gerber: gerber. Records is the lines and the regular expressions of ipcd356.py and Netlist is its parse,
--   with read_line as the body of the loop. Excellon is what a line of drill.py says, whatever comes before
--   it, and Drill is parse_holes, with step as the body of the loop.
--
-- Parameters. Python's floats are not modelled: Sexpr.Tree.Numbers is what the reader uses of them and of
-- the digits of re, and Completeness.Comparisons.Floats is the comparisons of the gate.
-- Limits.Covers takes the order of floats without NaN as IsOrdered, and of the quotient and the logarithm of
-- two frequencies what HasLogarithms says.
-- NetClass.Library is fnmatch and the truth of a float;
-- Base.Json.Floats is the floats and complex numbers that documents and spectra compute with. Base.Arithmetic
-- adds the ValueError of math.log10 and the ZeroDivisionError of a quotient, and ten_to is none where
-- 10 ** x raises OverflowError; the operations of the pulse train and those on complex numbers do not raise
-- here.
-- Components.Python.Texts is str, lower and upper and float of a text, and ge is the comparison of two ints or floats. Components.Package.Classes is the classes \d and \w of re,
-- Gerber.Records.Digits is \d with the values of the digits, and Gerber.Drill.Numbers is \w, upper, float of
-- a text and the quotient of two ints. The answers of the
-- server, the disk and the stages to one run are Runner.Execute.Answers; all theorems hold whatever they
-- are.
--
-- Fuel. tokens runs on the length of the text. Sexpr.Ends counts the rounds of its loop without a bound and
-- shows that they are no more than the characters. find and compress run on the number of labels, and find_total shows that this is enough in every
-- state where no parent is larger than its child, which make and union keep.
--
-- Not modelled: the text of messages in SexprError and in the gate's gaps; logging; the file-system calls
-- of scratch.py; registration, reconnecting, shutdown and the summary of a finished
-- run in runner.py; rasterizing and
-- labelling in raster.py; reading the tables of limits.py and the project file of netclass.py; place.py and
-- basis_label of components; exceptions of floating-point arithmetic, but for int values that are
-- too large for a float, the interpolations of a limit, a driver's spectrum and the table of a family of
-- components, and a driver's levels in volts; and the parts that are numerical
-- physics, solver glue, user interface or other languages.
pub mod Base
pub mod Completeness
pub mod Components
pub mod Drivers
pub mod Gerber
pub mod Limits
pub mod NetClass
pub mod Raster
pub mod Runner
pub mod Scratch
pub mod Sexpr

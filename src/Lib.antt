-- ===== src/Lib.antt =====
-- Jsonifier: the routines that turn C++ values into JSON text and back, the iterator that the
-- parser reads a text with, the validator's check of a number, the minifier and the prettifier.
--
-- The library writes and reads strings and integers byte by byte or register by register, reads
-- vectors and skips values with an iterator over the text, and rewrites whole documents along a
-- tape of structural indices. Paths below are from include/jsonifier-incl/.
--
--   Prelude       names of the libraries, tests on numbers, lists, memory as a list of bytes, and
--                 the laws of the bit operations (Prelude/Bits).
--   Decimal       decimal text, the description that writer and readers are measured against.
--   ToChars       utilities/i_to_str.hpp, `to_chars<uint64_t>`; ToChars/Signed has
--                 `to_chars<int64_t>`.
--   ParseUint     utilities/str_to_i.hpp, `integer_parser<uint64_t>`.
--   ParseInt      utilities/str_to_i.hpp, `integer_parser<int64_t>`.
--   CodePoint     utilities/string_utils.hpp, `hexToU32NoCheck`, `codePointToUtf8` and
--                 `handleUnicodeCodePoint`.
--   StringWriter  utilities/string_utils.hpp, `string_serializer`, with the quotes that
--                 serializing/serialize_impl.hpp puts round it.
--   StringReader  utilities/string_utils.hpp, `string_parser` without UTF-8 validation.
--   StringRoundTrip  both together.
--   JsonTypes     serializing/minifier.hpp, `jsonTypes`, and reads of the tape.
--   Minifier      serializing/minifier.hpp, the rest.
--   Prettifier    serializing/prettifier.hpp.
--   JsonIterator  utilities/json_iterator.hpp, `json_iterator` over a text pointer: the state and
--                 the tests of a byte; Whitespace and White have `skipWhitespace`, Marks the
--                 brackets and separators, Skip `skipString`, `skipValue` and
--                 `skipRemainingObject`, Members texts of members (with `skipStringImpl` of
--                 utilities/string_utils.hpp), Iterate the scalar values, Depth, Session and
--                 Brackets what the calls do to the state.
--   Parser        parsing/parse_impl.hpp, strings, vectors and maps.
--   Serializer    serializing/serialize_impl.hpp, booleans, vectors and maps, with `indent_table`.
--   Codec         the promise of a writer and a reader to each other, as a record; Scalars and
--                 Vectors keep it, and Maps is their client.
--   TapeIterator  utilities/json_iterator.hpp, `json_iterator` over structural indices: the state
--                 and the tests of a byte; Skip has `skipValue` and `skipRemainingObject`.
--   Validator     parsing/validate_impl.hpp, the check of a number.
--   Tests, IteratorTests, TapeTests  the theorems at concrete inputs.
--
-- A pointer into a text is the list of the bytes from it on, and a read at the end of the list
-- gives the NUL that ends the text. A function that stores through a pointer returns the bytes
-- stored. A null pointer, a read outside a table, the overflow of a signed number, and for the
-- prettifier a read outside the text or a copy of a negative size, are values of a result type.
-- Unsigned words wrap modulo 2 ^ 64. A vector register of `n` bytes is the first `n` bytes of the
-- memory; the list of register sizes of a machine (64, 32, 16 or a tail of it) is an argument.
--
-- The iterator is a record: the text from `rootIter` and from `iter` on, the two depth counters,
-- and the errors, the last one first; an error is its status and the text from its place on. The
-- options `minified` and `nullTerminated` are fields of a record, so that a function stands for
-- the code of both structs and both branches. A reader of values gives the value and the state, or
-- the state alone. A map is a container of the standard library, so its two operations are
-- arguments. A thread's `valueTemp` is a function that gives its elements for the state in which a
-- vector is read.
--
-- The loops that are not structural take fuel. The vector loops and the plain loop of the string
-- reader take a byte at least in each round, and start with the length of the text or one more;
-- the loop of the prettifier takes an entry of the tape at least in each round, and starts with
-- one more than its length. The loops of the iterator take a byte in each round and start with one
-- more than the bytes left; without fuel they would give a false outcome with no error. The
-- minifier's loop is a recursion on the tape. The result for fuel that runs out is a value of its
-- own (`starved`), or for the string writer the rest of the text, and each theorem gives the
-- result itself.
--
-- Not modelled: the dispatch on C++ types, reflection and hashing, the readers and writers of
-- objects, tuples and pointers, signed numbers in the iterator, the readers of values over
-- structural indices, the validator but for numbers, the making of the tape by vector
-- instructions, floating point numbers (copies of other projects), the error messages, and the
-- growth of output buffers.
pub mod Prelude
pub mod Decimal
pub mod ToChars
pub mod ParseUint
pub mod ParseInt
pub mod CodePoint
pub mod Codec
pub mod JsonTypes
pub mod Prettifier
pub mod JsonIterator
pub mod Minifier
pub mod Parser
pub mod Serializer
pub mod StringReader
pub mod StringWriter
pub mod StringRoundTrip
pub mod TapeIterator
pub mod Validator
pub mod Tests
pub mod IteratorTests
pub mod TapeTests

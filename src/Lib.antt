-- ===== src/Lib.antt =====
-- A model of pinapod, a Rust library of alignment-one storage types for zero-copy access to
-- account data.
--
-- The program. The crate pinapod (pinapod/src) has stored types, each a fixed number of bytes at
-- alignment one: integers, booleans, options, bounded strings and bounded vectors
-- (pinapod/src/pod). A stored type validates its own bytes (`ZcValidate`) and has a byte layout
-- without padding (`ZcElem`); a fixed layout (`PinaPodFixed`) reads and initializes such a value
-- in a buffer (pinapod/src/traits.rs). The crate pinapod-derive generates a compact layout: a
-- header of fixed fields, length prefixes and tags, and then the active bytes of each string and
-- vector; of an enum, a tag and then the payload of its variant. A patch changes such a buffer as
-- a whole or not at all. Bytes come from outside, so each reader must be safe on any of them, and
-- every writer must leave bytes that validation accepts.
--
-- The files.
--
--   Base, Base/*: numbers, lists, byte strings and slice writes (`copy_nonoverlapping`, `fill`).
--   Error: pinapod/src/error.rs, and Rust's `Result` with `?` as a bind.
--   Elem: `ZcValidate` and `ZcElem` of pinapod/src/traits.rs, as records of operations and of
--     laws.
--   Utf8: `core::str::from_utf8` and `is_char_boundary`, as the automaton of well-formed
--     sequences.
--   Pod/Prefix: the length prefix (`try_decode_len`, `encode_len`, `len`, `_CAP_CHECK`,
--     `max_n_for_pfx`) that pinapod/src/pod/string.rs and pinapod/src/pod/vec.rs share.
--   Pod/Vec: `PodVecRepr` of pinapod/src/pod/vec.rs. Its children are about single operations on
--     memory; Pod/Vec/Spec is a bounded list, and Pod/Vec/Refine compares the vector with it.
--   Pod/Text: `PodString` of pinapod/src/pod/string.rs, likewise.
--   Pod/Maybe: `PodOption` of pinapod/src/pod/option.rs.
--   Pod/Flag: `PodBool` of pinapod/src/pod/bool.rs.
--   Pod/Int: `define_pod_integer!` of pinapod/src/pod/numeric.rs, over an interface of the native
--     integer that Pod/Int/Unsigned fills.
--   Pod/Elems: the implementations of `ZcElem` for booleans and integers.
--   Fixed: `PinaPodFixed` of pinapod/src/traits.rs.
--   Compact: the code that pinapod-derive/src/compact.rs generates for a compact schema. The
--     schema is data, and the statements that the macro emits for each field are the steps of a
--     walk: Compact/Support (`generate_support`), Compact/Walks (`generate_trait_impl`),
--     Compact/Diagnose (`generate_diagnose`), Compact/Sizes (`compact_max_size`,
--     `compact_tail_alignment`), Compact/Views (`generate_ref`, `compute_offset_tokens`).
--     Compact/Bounds, Compact/Agree, Compact/Reads and Compact/Contract compare the walks;
--     Compact/Exact and Compact/Allocation measure the tails, and Compact/Accessors,
--     Compact/Optionals and Compact/Sound compare the unchecked accessors with the walk.
--   Compact/Edits, Compact/Commit/*: the staged writer of `generate_mut`, and the commit of
--     `generate_commit_body`: the plan, the moves of the unedited tails, the writes of the edited
--     ones, and the header. Compact/Stored, Compact/Planning, Compact/Relocation and
--     Compact/Writing are about its parts; Compact/Committed is about the whole; Compact/Staging
--     is about the constructor and the setters, Compact/Session about calls in any order, and
--     Compact/Projected about the projected size.
--   Compact/Patch: the patch of `generate_patch`, with `generate_preflight_walk`.
--     Compact/Patched/* are about it: the checks of its values, the planned length, the inline
--     writes, `update`, and `initialize`.
--   CompactEnum, CompactEnum/Patch: the code that pinapod-derive/src/compact_enum.rs generates
--     for a compact enum, over the variants as data: `validate`, `Ref::new`, and the patch of
--     `generate_patch_impl`. CompactEnum/Sizes: `enum_min_size` and `enum_max_size`.
--     CompactEnum/Written and CompactEnum/RoundTrip are about its write and its readers,
--     CompactEnum/Updated and CompactEnum/Initialized about `update` and `initialize`.
--   Tests: concrete layouts, values and runs.
--
-- State and operations. A stored value is a record of its byte lists; a vector is its prefix and
-- its slots. A method on `&mut self` is a function that returns the new value, first where it
-- also has a result, and keeps the name of the method (`some`, `none`, `set` and `not`, which the
-- language here has for other things, are `some_value`, `none_value`, `set_option` and `negate`).
-- A write through `get_mut` or a mutable slice is `set_at`. A closure argument is a function;
-- `Into` is a function argument. A failed compile-time check is the negation of a hypothesis:
-- `IsLayout` says that `_CAP_CHECK` passed and that `usize` has 32 to 64 bits.
--
-- Memory. `Shows` is any memory of the right size, its prefix clamped to the capacity by `len`;
-- `Stores` is memory whose prefix is exact. A memory that `Shows` describes may have a prefix
-- that validation would reject.
--
-- Bounds and loops. Every loop is structural: over the list, or in `retain` over the number of
-- rounds that are left, which is the length; no fuel is used but in `gcd`, whose second argument
-- falls in each round, so that one more round than it is enough. A byte is a number below 256,
-- and the casts to `u8`, `u16` and `u64` are written as remainders. `usize::MAX` is a field of
-- the layout.
--
-- A value of a patch is given by its bytes, with its length or count; the discriminants of an
-- enum are numbers, the first arm that matches is taken, and `MIN_SIZE` and `MAX_SIZE` are
-- arguments. A staged edit is the null pointer of a cleared option, or a count with the bytes
-- behind the pointer, which the borrow keeps unchanged until the commit. A statement of the
-- commit that can fail returns the buffer with its result, so an error keeps what was written
-- before it. The `is_none` of an edit and `copy`, which may overlap, are as in the code; a copy
-- from a slice is `copy_at`, which leaves positions outside the buffer alone where the code would
-- panic.
--
-- A sum of the generated code that is unchecked wraps around, as in a release build; `um` is
-- `usize::MAX`, and `isize::MAX` is its half. A failed assertion of a schema, or an overflow of
-- its `MAX_SIZE`, is the negation of a hypothesis; `MAX_SIZE` and `TAIL_ALIGNMENT` are arguments
-- of the walks.
--
-- Not modelled: floats, wincode serialization, signed integers, the fixed derive and the parsing
-- of the derive macros in pinapod-derive; the builders of a patch, which store a converted value;
-- formatting, hashing and iterators, which only read.
pub mod Base
pub mod Error
pub mod Elem
pub mod Utf8
pub mod Pod
pub mod Fixed
pub mod Compact
pub mod CompactEnum
pub mod Tests

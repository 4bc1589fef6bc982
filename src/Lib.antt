-- ===== src/Lib.antt =====
-- The memory middleware of Zion's Light AI (compactor/), which stands between a chat client and a
-- language model: it keeps facts and summaries of each conversation, injects them into requests
-- within a token budget, and after each reply decides what of the reply is remembered.
--
-- The parts and the files that model them:
-- * Facts (compactor/facts.py). A fact is the record `Fact`; `object` is the identity of its dict,
--   since the source compares facts by `id`. Facts/Split is `_lru_split`, Facts/Select is
--   `select_for_injection` with the ordering by relevance, Facts/Store is the active file, the
--   archive sidecar and what moves facts between them: `archive_facts`, `archive_stale_facts`,
--   `restore_from_archive`, `prune_facts`. A file is none where it cannot be read, and each write has
--   a flag that says whether it succeeds, so that every order of failures is covered.
-- * Sentence (compactor/main.py): `trim_to_last_sentence`, with `_is_real_sentence_end` and the
--   regular expression of a sentence's end.
-- * Tail (compactor/main.py): `decide_memory_tail` and `_run_memory_tail`, over the state of the three
--   modules that it calls: the ledger, the pool and the disk guard.
-- * Messages (compactor/main.py): `split_messages`, which cuts a conversation into what is summarized
--   and what is kept; Messages/Shape the two merges before a request is forwarded,
--   `_merge_adjacent_system_messages` and `_merge_consecutive_same_role`.
-- * Portability (compactor/portability.py): `_merge_fact_lists`.
-- * Summary (compactor/summarizer.py): the scenes, chapters and theme of a conversation. Summary/Rollup
--   is the three rollups and the archive of chapters, Summary/Drain the loop of
--   `_maybe_rollup_body`, Summary/Position `_observed_position`, Summary/Record the record of the
--   turns that chunks have read, Summary/Pairing `_pairing`, Summary/Prefix `_covered_prefix`,
--   Summary/Plan `_coverage_plan`, Summary/Legacy `_adopt_legacy_record`, Summary/Patch
--   `_patch_candidates`, and Summary/Pass a pass of `_maybe_rollup_body` from the state it loads to
--   the state it saves. Summary/File is the state's file and Summary/Block the block that goes into a
--   request, with its joined text in Summary/Block/Joined. What the language model answers
--   is an argument, by the round of the loop, and so are the budget of calls and the failures of the
--   archive. A fingerprint is a number, a function of its turn.
-- * TailHealth (compactor/tailhealth.py): the ledger of stores and skips.
-- * Bgwork (compactor/bgwork.py): the pool of background tasks, its event loop as a step relation.
-- * Degrade (compactor/degrade.py): the pause of writes under disk pressure, with its cache.
-- * TokenHealth and Logsetup (compactor/tokenhealth.py, compactor/logsetup.py): the health of the
--   tokenizer's sources, and `log_once`, which it calls.
-- * Dedup (compactor/dedup.py): `_split_cluster` and the memo of refused clusters.
-- * Backup (compactor/backup.py): `_keep_set` and `prune_old_backups`.
-- Prelude has what they share: Boolean tests on the native numbers, Python's list, dict, str and
-- `sorted`. Tests has runs on concrete data and instances of the theorems.
--
-- Numbers are natural where the source's are never negative; an integer that may be negative is a ℤ
-- of Prelude/Int. Times are in tenths of a second, or in seconds for archives, in place of floats.
-- The loops are structural recursion, but for two. That of `_split_cluster` has the length of the
-- cluster as fuel: a round takes one index at least. The drain of rollups has any fuel, and needs more
-- than the sum of twice the turns behind the position, the scenes, and two, which every round
-- lowers, where a scene has one turn at least (`L1_CHUNK_SIZE`). Exceptions are a result of none.
--
-- Arguments of the model are what the source takes from elsewhere: the embedding model, Python's
-- tables of Unicode characters and `str.lower`, the calendar, the free space of the disk and the
-- clock; which turns have image parts (`_has_image_parts`); and `reply_is_degenerate`, the detector of
-- repetition loops, which is not modelled.
-- Not modelled either: the calls of the language model and what parses its answers, the shaping of
-- requests to the hard budget (compactor/main.py), the web interface's database, the other commands
-- and endpoints, log lines, and file formats.
pub mod Backup
pub mod Bgwork
pub mod Dedup
pub mod Degrade
pub mod Facts
pub mod Logsetup
pub mod Messages
pub mod Portability
pub mod Prelude
pub mod Sentence
pub mod Summary
pub mod Tail
pub mod TailHealth
mod Tests
pub mod TokenHealth

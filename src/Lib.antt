-- ===== src/Lib.antt =====
-- SynapseGit LP Studio, the local server (apps/local-server/src): a model of its core and the theorems
-- that make it correct.
--
-- The server keeps projects, each a revision of a small static site that people have accepted. An AI
-- provider is asked for a ChangeSet, a bounded list of operations on the files of the Accepted
-- revision. While the provider is asked, the project has an attempt; what it answers is parsed,
-- validated and applied to a clone of the files, checked, and shown for a human decision. What is
-- accepted becomes the next revision on disk: the store writes it and switches the site over to it, and
-- when the server starts again it repairs what a crash left of a switch. The Accepted files can be
-- exported as an archive with a receipt of what the site refers to. What was decided can be published
-- as a bundle of files that shows chosen public fields.
--
--   file of this library     code
--   Prelude                  the parts of the Rust standard library that the code calls: str and String
--                            (Text: a text is the list of its code points, and its bytes are the UTF-8
--                            encoding of it), BTreeMap (Map), HashSet (Set), BTreeSet of structs
--                            (Ordered), the strict UTF-8 decoder (Utf8), Result and `?` (Basics)
--   AiAttempt                apps/local-server/src/ai_attempt.rs: the table AiAttempts and all its calls
--   ChangeSet                apps/local-server/src/change_set.rs:
--     Types                  the protocol's types, the limits, the errors; the parameters
--     Path                   validate_path, reserved_path, media types, hashes
--     Validate               validate_envelope, validate_accepted_paths, validate_operations
--     Graph                  validate_operation_graph, contains_rename_cycle
--     Apply                  validate_preconditions, apply_to_clone, the checks of the final paths
--     Diff                   build_unified_diff and its bound
--     Reference              resolve_local_reference, percent_decode
--     Markup                 scan_markup_tags and its parts
--     Behavior               external_origins and the occurrences; its children Features and Warnings:
--                            behavior_features, active_behavior_warnings
--     Accessibility          accessibility_smoke_check
--     Review                 parse_and_apply_change_set, validate_local_references, ordered_checks
--   StaticExport             apps/local-server/src/static_export.rs:
--     Tags, Css, References  the markup and CSS readers and what they find in an attribute
--     Scan                   scan_references, which the review of a ChangeSet calls too
--     Receipt                the types of the validation report
--     Resolve                resolve_reference, external_reference
--     Report                 analyze_references and the receipt's fields
--     Generate               validate_export_input, canonical_file_entries, generate_static_export
--   Storage                  apps/local-server/src/storage.rs:
--     Paths                  validate_canonical_path and the checks of identifiers, hashes and names
--     Disk                   the stored types, a project's directory, and the effects on it
--     Files                  stored_files, validate_stored_files, validate_pointer, scan_materialized
--     Manifest               read_manifest_from_root and the reading of an object
--     Project                commit_revision_at and materialize_to; its child Recovery:
--                            recover_project and verify_project
--   Publication              apps/local-server/src/publication.rs: validate_input, html, markdown_inline
--   The other children of a module hold its laws; Tests and Examples hold runs on concrete values.
--
-- The state. The Mutex<BTreeMap> around AiAttempts is left out: a call takes the table and returns the
-- new one with its answer, so that an order of calls is a list of them. The watch channels are a store
-- of Booleans in the table. All of change_set.rs is functions from values to values; the loops that
-- push, insert and count return what they add, or take what was added so far. static_export.rs is
-- modelled the same way. The calls of storage.rs act on a record with a field for each entry of a
-- project's directory that they touch (Disk).
--
-- Errors and crashes of the disk. A call of the store takes, beside the disk, a list of fates, one for
-- each operation on the disk in the order they are made: it happens, it fails with an error of the
-- file system, or the server stops there. When the list is used up, all further operations happen. An
-- operation on a whole tree that does not complete leaves that tree arbitrary: the fate says what. A
-- JSON file is written by a rename, so it is kept as a value, and it is there as a whole or not at
-- all; its temporary file, the symbolic links and the limits on a directory's entries are left out.
-- After a stop the server runs recover_project on the disk as it is, possibly stopped again.
-- Path::exists is taken to answer: that it says no where the metadata cannot be read is left out. A
-- reading whose error the code drops with ok() counts as one that does not match.
--
-- Loops and fuel. Most loops are recursion on the list they go through. The others take fuel:
-- contains_rename_cycle follows the edges from a path with one more unit than there are edges, which is
-- enough since no path is visited twice; the scanner for markup, the parser of attributes, the search
-- for a closing tag and decimal take one more than the length of the text, or than the number, and
-- each round takes at least one character, or digit, off. The same holds of the readers of
-- static_export.rs: css_from, export_tags, export_attributes, export_raw_text and html_boundary.
--
-- Numbers. usize and u64 are 64 bits wide: the checked additions of the generated bytes, of the export's
-- total and of its count of references, and the saturating counts are written out. All other sums are
-- of lengths of texts that are in memory.
--
-- What the model takes as parameters. Crates: Unicode normalization and case folding, SHA-256, the
-- calls of the crate url, and lowercase beyond ASCII, as functions. from_str: serde_json.
-- StaticAnalysis: validate_resulting_site of static_syntax.rs, the analysis of the syntax that
-- change_set.rs calls; nothing is assumed of it, so the theorems hold with any analysis.
-- ExportCrates: the media types of mime_guess, serde_json's canonical text, the deterministic archive
-- of the zip crate, and the version of the server. StorageCrates: mime_guess and serde_json for the
-- manifest of a revision. What a theorem asks of all these is among its hypotheses: that a call of url
-- changes the one part of a URL that it names, and the origin is that of the scheme, the host and the
-- port; that the manifest that is written decodes to itself and is not longer than the 4 MiB that are
-- read, that a digest has the form the store accepts and differs for the files of one revision that
-- differ, and that a list of files has the order of a BTreeMap.
--
-- What is not modelled: the HTTP routes and the decision flow of lib.rs; of storage.rs the imports,
-- proposals, targets, exports, publications, migrations, backups and deletions; the store of
-- synapse_sidecar.rs; the provider client of ai_provider.rs; the projection of a publication and the
-- rendering of its pages (the rest of publication.rs); the analysis of static_syntax.rs; and the process
-- set-up of main.rs.
pub mod Prelude
pub mod AiAttempt
pub mod ChangeSet
pub mod Publication
pub mod Storage
pub mod StaticExport

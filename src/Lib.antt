-- ===== src/Lib.antt =====
-- cup installs compilers and other tools side by side, picks a default for each scope (a component,
-- a host and a target platform) and keeps what it did in text files under one root. This is a model
-- of its core, with proofs.
--
-- Parts and how they meet:
--   Errors       include/error.h, src/exit_status.c: error codes, process statuses, and results.
--   Text         src/text.c: trimming, bounded copies, splitting, numbers, key=value lines. The
--                document reader that every parser runs on is Text/Reader.
--   Path         src/path.c, the POSIX branch: joins, parents, safe segments and identifiers.
--   Registry     src/registry.c, src/platform.c, include/domain_registry.h: the compiled-in tables.
--   Selector     src/package_selector.c: <tool>@<release>, concrete releases and their order.
--   Package      src/package.c: scopes and identities, which the registry and the selector validate.
--   State        src/state.c: the installed packages and the defaults. Its operations validate
--                identities through Package. State/Defaults has the defaults and the reference of a
--                tool; State/File has what state_load parses and state_save writes, with the lines
--                of one record in State/File/Line and both directions in State/File/Saved.
--   PackageRequest  src/package_request.c: what a command asks for, and the release that it resolves
--                to, which the catalog names for stable.
--   InstallPolicy  src/install_policy.c: the compiled-in defaults, profiles and toolchains.
--   Preferences  src/tool_preferences.c: the preferred tool of each target and component, as a table
--                (Preferences), as the map that it stands for (Preferences/Map), and as a file
--                (Preferences/File).
--   System       include/system.h, src/system_posix.c: the kinds and the identities of what stands
--                at a path, and what a move of a file may have done when it answers.
--   Filesystem   src/filesystem.c: reading a file with its identity, and the three publications of
--                a file, which write a temporary file and move it.
--   Journal      src/runtime_journal.c: the envelope of transaction.txt and its owner. Publishing
--                and clearing the file is Journal/Publish.
--   Transaction  src/package_transaction.c: the journal of an install or a removal, which
--                Transaction/Load reads back through Journal. The recovery of an interrupted one,
--                which asks the state whether the package is installed, is Transaction/Recover.
--   Uninstall    src/uninstall_journal.c: the journal of removing cup itself, with its phases. It is
--                read by Journal and published and cleared by Journal/Publish.
--   CatalogRefresh  src/catalog_refresh.c: the commit of a downloaded catalog under the lock, which
--                publishes it by Filesystem, and the loop of attempts around it.
-- Text/Skips and Text/Trimmed say which lines the document reader passes over, and what it leaves of
-- the others. Base/Rearranged says what a sort keeps of a list. Text/Lines and Text/Split are the
-- reader and the splitter on texts that a writer of cup has made; Registry/Names and Selector/Written
-- say what bytes the names and the releases in such texts have.
-- State and operations carry the names of the C code. A struct is a record, an output parameter is
-- a result (`Result`) or part of the answer, a pointer that may be NULL an `Option`; an operation on
-- a CupState takes it and returns it with the error code. Tests that a pointer argument is not NULL
-- have no counterpart. A C string is the list of its bytes (`Text`).
--
-- Outside: diagnostics are not modelled. What the operating system answers is a parameter: the
-- allocator (`allocates`), the host platform, qsort (`sort`), the contents of a file, and one field
-- of an answers record for each system call (`Answers` of Transaction/Recover, `MoveAnswer` of
-- System, the answers of Filesystem, Journal/Publish, Uninstall and CatalogRefresh). The disk of a
-- recovery is what stands at the two paths that the transaction names, the objects set aside, and
-- whether the journal exists; a published file is what stands at its one path (`StoredFile`), with
-- its bytes and its identity. A move is the outcomes of move_path_common: where the destination
-- cannot be examined behind the rename, a move that does not replace is renamed back, and may then
-- answer CUP_ERR_COMMIT with nothing at the destination. Other processes do not touch these paths
-- during a call: the commands hold the runtime lock, and a temporary file's name is only theirs, so
-- that two reads of a temporary file give the same bytes. The integrity check of a package tree (package_validate_integrity) is
-- the parameter `integrity`, and the parser of a package catalog (package_catalog_load_path) is
-- the parameter `load`, its choice of a stable release (package_catalog_resolve_stable) the parameter
-- `resolve_stable`.
--
-- Fuel: the capacity loop of reserve_installed runs on 65 steps, since a capacity of at least one
-- that doubles 64 times passes SIZE_MAX; the loop of text_document_read_line and those of
-- its callers run on one step more than there are bytes left, since each step reads a line. The
-- loop of catalog_refresh_existing has the three attempts of the source.
--
-- An index of an array is the source's int: MAX_STATE_FILE_BYTES keeps the arrays far below 2^31.
--
-- Not modelled: the Windows branches; the parser of the package catalog, the manifests and the
-- metadata; the journal of an update and the generations; downloads, archives, the cache and the
-- extraction; the order of the steps of an installation; wrappers; self update, the helpers and the
-- commands. The walks over directories and the calls of the operating system are outside.
pub mod Base
pub mod Errors
pub mod Text
pub mod Path
pub mod Registry
pub mod Selector
pub mod Package
pub mod State
pub mod PackageRequest
pub mod InstallPolicy
pub mod Preferences
pub mod System
pub mod Filesystem
pub mod Journal
pub mod Transaction
pub mod Uninstall
pub mod CatalogRefresh
mod Tests

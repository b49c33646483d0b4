-- ===== src/Lib.antt =====
-- Kernel Pop: what its Rust code decides, modelled and proved.
--
-- Kernel Pop installs mainline Linux kernels that it builds from kernel.org tarballs. The application
-- (src/ui.rs) lists the releases (src/kernelorg.rs), downloads a tarball (src/download.rs), looks into
-- it (src/source.rs), verifies its signature (src/verify.rs), configures and builds it into Debian packages with a manifest (src/build.rs), and
-- installs them through a privileged script that pkexec starts (src/install.rs). src/system.rs reads
-- the state of the machine and says whether an install may start and which kernels may be removed.
--
-- The files and the code:
--   Prelude, Text: results, tests, lists and texts, as the code uses them from Rust's library. A text
--     is the list of its code points; Text has `lines`, `trim`, `split_whitespace`, `split_once`,
--     `strip_prefix`, `parse` for u32, u64 and i64, and the decimal numbers of `format!`.
--   Source: src/source.rs. Version: Compression, SourceVersion and its names. Makefile:
--     parse_makefile. Archive: find_makefile over the entries that the tar crate yields (none is a
--     damaged entry, as is a path or a text that cannot be read), and check_single_top_dir over what
--     `tar -tf` prints.
--     Tarball: Tarball, inspect, sibling_signature and private_copy_in; a path is the list of its
--     parts, and what the files hold and which operations succeed are arguments.
--   Verify: src/verify.rs. Status: parse_gpgv_status, with Rust's upper-casing as an argument.
--     Address: uid_address, is_release_signer, signer_uid_from_packets, grouped_fingerprint. Tarball:
--     verify_tarball and gpgv_tarball over a record of the programs they run; the state of the
--     private gpg home is passed from call to call. Timeout: output_with_timeout, whose polls and clock are
--     arguments.
--   System: src/system.rs. Versions: version_key and compare_to_running, with the Vec<u32> that they
--     compare. Prune: prune_candidates and the order of get_installed_kernels, with a stable sort.
--     Signing: the parsers of what mokutil, openssl and dpkg-query print, and the combinations of
--     what was observed. Gate: install_blocker, install_warnings, boot_low,
--     estimate_boot_needed. Health: healthy, health_summary, kernelstub_slot, kernelstub_entry.
--     BootPath: parse_boot_path, detect_bootloader, sdboot_entry_matches and boot_entry.
--     Query: query_system and all that it detects, over a record of what programs print and files hold.
--   Install: src/install.rs. describe_failure, tail_lines, ScriptReport::parse and
--     validate_mok_password; Helper: helper_problem_in, run_script_with_stdin and the seven
--     operations run_privileged_*, over what is at the two paths and over pkexec.
--   Download: src/download.rs. Attempts: download_one, where each of the three attempts meets the
--     answer, the chunks, the cancel flag and the disk as arguments give them. download_files works
--     on a store from paths to contents.
--   Releases: src/kernelorg.rs. parse_releases behind the JSON parser, signature_url, url_file_name.
--     Signature: fetch_signature over download_files.
--   Build: src/build.rs. Manifest: parse_manifest, manifest_text and valid_release; a BTreeMap is the
--     list of its entries in the order of the keys. Publish: publish, over which operations of the
--     file system succeed. Texts: missing_from_dpkg_query, config_value, module_count,
--     only_archive_errors, is_object_line, parse_proc_modules, lsmod_text, shell_quote.
--     Sets: space_problem, verify_built_set, and what built_sets_in takes as a build. Request:
--     SourceTrust, BuildRequest, ConfigSummary and its text. Prepare: prepare, over what it finds.
--     Configure: configure over a record of the commands and files, whose world is passed from one to
--     the next; Notes and Lists hold its texts and tables. Run: the events that the lines of make
--     give, the packages that run_build picks, and what build cleans up. Finish: run_build and build in
--     full, with build-info.txt, from the end of make to the published set. Devices: collect_modaliases and
--     present_device_modules, over any graph of directories. Control: BuildControl with the two
--     threads that use it, the runner of commands and the call of cancel, in steps between their
--     accesses to the shared atomics; a run is any list of their moves.
--   Ui: src/ui.rs. State: AppState with the callbacks that wait (a task of another thread, or a
--     dialog), which button takes a click, and the label of the busy state that a callback releases.
--     Handlers: what a click does up to the task that it starts. Answers: what each callback does with
--     what its task or dialog answered. Steps: the states that are reached by clicks, answers and
--     panics in any order; what a signature check and the check of a finished build can say are
--     arguments. Noted keeps, along a run, which builds were found intact since the list was last read.
--     A handler is modelled as if its button always took the click. Messages: the
--     subtitles of the boot rows, and the toast and the log lines of a run of the script. Rows: the
--     list of releases, the banner of a newer one and the Install tab.
-- Messages for the user are constructors with what the text shows. Numbers of the code that can wrap
-- do (estimate_boot_needed and the count of downloaded bytes wrap at 2^64). Two loops have fuel, and are proved
-- to end within it: the search of /sys for device aliases (26 rounds, one more than the levels that
-- its limit of the depth allows) and the polls of a program with a timeout (the limit over the 100
-- milliseconds between two polls, and two more). Every other recursion is on a list, or on the
-- attempts that are left of three.
--
-- Not modelled: the widgets of the user interface, its progress bars and its other lists; what the HTTP
-- client and the JSON parser do; the privileged shell script, which is an argument of the runs; the
-- reading of files and the running of programs, make and dpkg-deb among them, whose results are
-- arguments; the log lines of verify_tarball and of builds and the progress events of downloads.
pub mod Prelude
pub mod Text
pub mod Source
pub mod System
pub mod Install
pub mod Download
pub mod Releases
pub mod Build
pub mod Verify
pub mod Ui

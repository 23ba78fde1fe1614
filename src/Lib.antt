-- ===== src/Lib.antt =====
-- secretd keeps the secrets of a developer in an encrypted vault and hands them, and credentials of
-- AWS, to client processes that its owner has approved.
--
-- The parts, and the modules that model them:
--   * Vault: src/vault.rs, the type `VaultStore` with all its methods. Vault/Defs has the data,
--     Vault/Names the names and passwords, Vault/Entries the ordered map of the secrets, Vault/File
--     the file format and the atomic write, Vault/Store the methods,
--     Vault/Specification an abstract vault. `VaultError` is `Failure` of
--     Prelude/Result: each message of the source is a constructor.
--   * Grants: src/grants.rs, `GrantStore`, the temporary grants for secrets. `GrantStore::add`,
--     `find` and `list` are `add_grant`, `find_grant` and `list_grants`.
--   * Process: src/process.rs, the identity of a process, the walk to its ancestors and the check of
--     a connection, for Linux.
--   * Aws: src/aws.rs and src/aws/browser.rs. Aws/Defs and Aws/Check have the settings that the vault
--     keeps, and their validation. The broker's operations on the settings are in Aws/Token, the
--     registration of the client and the renewal of the token, Aws/Discovery, the accounts and roles,
--     Aws/Credentials, and Aws/Login with Aws/Browser, the sign-in in the browser. `login` is
--     `start_login`, up to the call of `browser_ready`, and `finish_login`.
--   * Controller: src/controller.rs, the state that the window of the owner and the server of the
--     clients share, and every operation on it. It holds a vault and a store of grants, and asks
--     Process for the ancestors of a client. Controller/State has the data, Controller/Audit the
--     history and the channels, Controller/Requests the requests for secrets, Controller/AwsRequests
--     and Controller/AwsGrants those for AWS, Controller/Session the login, Controller/Vaulted the
--     operations on the vault, the lock and the snapshot. `Controller::lock`, `unlock`,
--     `save_secret` and `change_password` are `lock_all`, `unlock_vault`, `save_controller_secret`
--     and `change_master_password`.
--   * Server: src/ipc/server.rs and src/ipc/protocol.rs. Server/Handler reads a request, checks it and
--     calls the handler of its action: Server/Secrets for a secret, Server/Credentials for
--     credentials of AWS, Server/Login for a login. Each works on the controller behind its lock,
--     which other threads use too. Server/Token has the comparison of the tokens, Server/Limits the
--     count of the connections, Server/Endpoint the runtime file.
--   * Client: src/ipc/client.rs (Client/Request), src/bin/secretd.rs (Client/Mode) and src/paths.rs
--     (Client/Paths).
--   * App: src/app.rs and src/runtime.rs without their drawing. App/Forms has the main window with the
--     handlers of its forms (App/AwsForms those for AWS), App/Requests the request window,
--     App/Aliases the aliases of accounts, App/Labels the texts, App/Windows which windows are open.
--     `save_secret`, `reveal_secret`, `delete_secret`, `save_aws_connection`, `set_aws_grant_level`
--     and `respond_aws` of the windows are `save_secret_form`, `toggle_secret`, `delete_secret_form`,
--     `save_aws_connection_form`, `switch_aws_grant` and `respond_to_aws`.
--   * Prelude: lists, texts, maps, results and methods that may fail, for all of them. A method with
--     `&mut self` that may fail is an `Exec`: the state comes back beside the error too.
--
-- How the program is represented:
--   * A text is the list of its code points, a `HashMap` the list of its entries, in an order that no
--     statement fixes, a `BTreeMap` the list in the order of its keys, a `u64` of milliseconds a
--     natural number with the saturation of the source written out.
--   * A slice of a text that would panic is `none` (`slice_from` of Prelude/Text), and so is the
--     handler that makes it, `open_aws_aliases` of App/Forms. A temporary file has a new name each
--     time, so that the temporary files are a list.
--   * The clock and the UUIDs are sequences in `World`, with the number of values already used; a
--     method of the vault gets the results of its system calls as a `Host`. AES-GCM, PBKDF2, base64
--     and JSON are the functions of a `Platform`, whose documented laws are `IsPlatform`.
--     Vault/Sample has functions that keep these laws. The files of /proc are a `ProcFs`.
--   * The receiver of a channel is known by the ID of its request; `sent` and `sent_aws` list the
--     messages that went out.
--   * A handler of the server is an `Exec` on a `Server` (Server/Shared). What the other threads do
--     with the controller before each time that this one gets the lock, or a message, is a list of
--     events, any events in any order (`Event` and `handle_all` of Controller/Reachable); a wait that
--     finds no message is one that ran out of time. A lock is never poisoned.
--   * The calls of the AWS SDK and the clock of the broker are a `Service` and a `Session` (Aws/Sdk),
--     in which the n-th call may have an answer of its own. The crate url is a `UrlCrate`, serde_json
--     on the types of the protocol a `Json`, what the system lets the client do a `ClientHost`.
--   * Loops are structural. The walk to the ancestors recurs on its limit, which the source counts
--     down too; `decimal` writes at most ten digits, enough for the version and the iterations, which
--     are numbers of 8 and 32 bits; the texts of the windows use twenty, enough for 64 bits. The loops
--     over the pages of an answer, which the source leaves only when the service ends them, take fuel
--     and fail with `pages_unfinished` without it: fuel for the number of pages is enough.
--
-- Not modelled: the drawing of the windows, the tray and the icon (the `render` functions of
-- src/app.rs, the event loop of src/runtime.rs, src/icon.rs), which belong to gpui; the listeners,
-- the start of threads and processes and the exit codes, which are input and output; the random
-- texts, SHA-256 and the HTTP answer of src/aws/browser.rs. Of src/process.rs the variant for
-- macOS, which runs `ps` and `lsof`, is left out, of the server's sockets every failure but that
-- of a read; so is the wiping of memory in all files.
pub mod Prelude
pub mod Process
pub mod Grants
pub mod Aws
pub mod Vault
pub mod Controller
pub mod Server
pub mod Client
pub mod App

-- ===== src/Lib.antt =====
-- The scripts of oxidt-kit: the login pages of crates/oxidt-auth, and the Markdown editor of
-- crates/oxidt-markdown-editor with the script that builds its bundle.
--
-- The login page (crates/oxidt-auth/src/topcoat/local_login.js) is one closure with variables and
-- asynchronous functions. LocalLogin/State.antt has its variables, what it shows and what is pending
-- as the record `Page`. An `async` function is cut at each `await`: the part before adds a task to
-- the page with the local variables that are live, and a function `on_...` is what runs with the
-- reply. `resume` (LocalLogin/Run.antt) sends each task to its continuation, and `Move` is one event:
-- a click, a submit, typing, the page being hidden, any pending task's reply, or a round of the
-- interval that mounts the captcha. `Reach` is every page that events lead to, so replies arrive in
-- every order. LocalLogin/Ui.antt is `show`, `setLoading`, the alerts and the start of
-- `armConditional`; Ceremony.antt is `runCeremony`, `cancelCeremony`, `getPasskey`,
-- `getPasskeyConditional`, `armConditional`, `triggerPasskey` and `actions.passkey`; Flow.antt is
-- `routeAfterTerms` and `proceedAfterLogin`; Forms.antt is the three submits and the captcha;
-- Actions.antt is the other buttons with `enrollPasskey`. Stale.antt, Abandon.antt, Outcomes.antt,
-- Mounting.antt, Stuck.antt, Redirect/, Invariant/, Progress/ and Mails/ hold what is proved of them.
--
-- The FerrisKey login page (crates/oxidt-auth/src/topcoat/ferriskey_login.js) is modelled in the same
-- way: FerriskeyLogin/State.antt, Ui.antt, Ceremony.antt, Forms.antt and Run.antt are its variables,
-- its `show` and alerts, its ceremonies, its forms with the captcha, and its buttons with the events.
-- Its `postJson`, `isCancel`, base64url and WebAuthn options are copies of the local login page's and
-- are those definitions. FerriskeyLogin/Protocol.antt is an abstract specification of the page, which
-- forgets what it shows: `Act` is what the user may do, `Answer` what the reply to each request may
-- do. Refines/ relates the two, and Protocol/, Reached/, Recovery.antt and Password.antt hold what
-- follows.
--
-- Base64.antt is `b64urlToBuffer` and `bufferToB64url`; Browser/Http.antt is `postJson` and the JSON
-- values that replies hold; Browser/Webauthn.antt is `requestOptions`, `assertionJson` and their
-- counterparts for a new passkey. `atob` and `btoa` are the browser's: they are parameters, and
-- Base64/Standard.antt has an implementation of RFC 4648 to which the theorem applies.
--
-- The editor's scripts (crates/oxidt-markdown-editor/scripts) draw a preview over the Markdown source
-- and offer a menu of slash commands. Editor/Document.antt is what CodeMirror's document gives them:
-- its length, `lineAt` and `sliceDoc`, with the law that lines partition the positions.
-- Editor/Slash.antt is slash-commands.js. Of markdown-editor.js, Editor/Preview/Ranges.antt is
-- `activeLines` and the helpers `editing`, `hide` and `lines` of `decorations`; Preview/Nodes.antt is
-- what `decorations` does on entering each kind of node; Preview/Walk.antt is the whole callback, with
-- the visited nodes and the map of line classes; Preview/Blocks.antt is the same for `blocks`.
-- Every.antt, Hide.antt, Visible.antt, Breaks.antt and Walk/ hold what is proved of them.
-- Preview/Cache.antt is `focusState`, `blockPreview` and `livePreview`; Preview/Widgets.antt is what
-- the four widgets draw, and when they are equal. Slash/Labels.antt is `commandLabels`.
-- Editor/Element.antt is the custom element with its microtasks, and Element/Loading.antt the script's
-- own run with `installStyles`. Editor/Controls.antt is `locked` and `controlled`, what the editor
-- takes from the textarea's attributes, with `observer`; Editor/Wiring.antt is every observer,
-- listener, property and timer that `mountEditor` sets up, for several editors on one page, and
-- `destroy`; Editor/Life.antt puts the element and its editors' attachments together.
-- Editor/Mount.antt is `mountEditor`: the textarea's value, which forms send, beside the editor's
-- document, with the filter and the listener of transactions, the api, the property `value`,
-- re-renders and resets. Newlines are normalised by the browser and by CodeMirror: that is a
-- parameter, with its law in Mount/Texts.antt.
-- Bundle.antt is crates/oxidt-markdown-editor/scripts/build-editor.js: the licences of the packages in
-- the bundle, which `license` collects along their dependencies.
-- The syntax tree is CodeMirror's: a node is a parameter with the children and parents that are read.
--
-- Text is a list of character codes. Loops over positions (`hide_from`, `starts_from`) run on
-- fuel: a round goes on behind the end of a line, so the number of positions between the ends is
-- enough. `license` runs on fuel for the depth of its calls: each of them collects a package, so one
-- more than there are packages is enough. The captcha loop and the mounting interval carry their
-- counters through the tasks and the intervals of the page.
--
-- Not modelled: keyboard focus, console output, the selection that the editor gives the textarea,
-- CodeMirror's keymaps and theme, the server and the settings of the tests, the generated bundle
-- assets/markdown-editor.js, and the Rust crates.
pub mod Kit
pub mod Base64
pub mod Browser
pub mod LocalLogin
pub mod FerriskeyLogin
pub mod Editor
pub mod Bundle

-- ===== src/Lib.antt =====
-- padlock-cloud: the Padlock cloud server, and its dashboard with the elements and modules it uses.
--
-- The dashboard is one bundle, assets/static/elements/cloud-dashboard/cloud-dashboard.js: modules for
-- requests and utilities, Polymer elements, and mixins by which the dashboard shows dialogs and
-- notifications. Elements call one another through promises, which a user's tap, a timer or a
-- response of the server settles. Each file of this library begins with the part that it is about.
--
-- - Util: `randomString` and its tables (Random), `uuid` (Uuid), `resolveLanguage` (Language),
--   `debounce` (Debounce), the date functions and `applyMixins` (Dates).
-- - Ajax: `AjaxError` and `request`.
-- - Browser.Timers: live timers, which the elements set and clear.
-- - Widgets: `BaseElement`, `AnimationMixin` (Animation), `PlInput` (Input), `Dialog`,
--   `LoadingButton`, `Toggle` with `ToggleButton`, and `Slider`.
-- - Dialogs: `DialogAlert` (Alert), `DialogConfirm` (Confirm), `DialogPrompt` (Prompt),
--   `DialogOptions` (Options), `PlExportDialog` (Promo), `Generator`, `Notification` with its mixin,
--   `DialogMixin` (Queue), and the field `_resolve` that they share (Resolver).
-- - Account: `SubInfoMixin` (Subscription), `Promo`, `PaymentDialog` (Payment).
-- - Localize: `localize` and `loadTranslations`.
-- - Platform: the environment and what is asked of it, the links to stores and reviews (Links), and
--   the device's information (Device).
-- - Tracking: `track` and what a launch tracks.
-- - Dashboard: the element of the page, with its texts (Texts), its requests on the subscription
--   (Payments) and the deletion of the account (Deletion).
--
-- The server is the Go package padlockcloud/. Requests come with a token, which it looks up in the
-- account that a storage keeps; handlers read and change accounts, activation requests and data.
--
-- - Storage: `Storable`, `MemoryStorage` (Memory), `LevelDBStorage` (Level) and `SliceIterator`
--   (Iterator), of padlockcloud/storage.go.
-- - Auth: tokens (Tokens, Strings), accounts (Accounts), activation requests (Requests) of
--   padlockcloud/auth.go, and devices (Devices) of padlockcloud/device.go.
-- - Errors: padlockcloud/error.go.
-- - Server: what padlockcloud/server.go reads of a request and asks of its storage, `Authenticate`,
--   the handlers of padlockcloud/handler.go (Handlers), the middleware of padlockcloud/middleware.go
--   and `WrapEndpoint` (Endpoints), and the locks of accounts (Locks).
-- - RateLimit: padlockcloud/ratelimit.go. Whitelist: padlockcloud/whitelist.go.
-- - Prelude, Dict, Promise, Json, Decimal: what the other files share.
--
-- A handler of the server is a function from the state of the storage to a result and a state, chained
-- by `>>=` as the code chains its early returns. The server takes a storage as a record of calls
-- (Server.Store); what it relies on is a record of laws (Server.Keeps), which Server.Memory has for the
-- memory storage and the behaviour of `encoding/json` as a parameter. Each handler runs alone;
-- only Server.Locks has requests that run beside one another, as steps in any order. Times are
-- nanoseconds, and 0 is the zero time; the clock is read once for a request.
--
-- An element is a record of its properties, and a handler is a function from the element to the
-- element; what it asks of the page, of Stripe or of the server is a list of effects beside it. A
-- promise is known by the number of the call that made it, and `_resolve` holds such a number. Uses
-- of an element are sequences of steps, as data types named `Step` and `Reach`.
--
-- Parameters stand for what the repository does not hold: goleveldb, throttled, gorilla's CSRF
-- protection, base64, random bytes, the clock, `JSON.parse`, the request object's reports,
-- `parseFloat` and the printing of numbers, and moment.js, whose record states its documented laws on
-- hours and order. The environment of Platform is a record of what Electron, Cordova and Chrome offer.
--
-- Bounds: `digits_from` takes as many rounds as the number, since each divides it by ten; the loop
-- of `resolveLanguage` takes as many as the locale has parts, since each drops one; the observers of
-- a slider run on fuel; `randomString` recurs on the bytes that it is given, since its own loop has
-- no bound. The loop that revokes a device's tokens takes as many rounds as the account has tokens and
-- one more; an iteration takes as many as the slice has elements.
--
-- Texts that the program walks are lists of code units.
--
-- Not modelled: the prices of the payment dialog, which are computed in floats; `init` and
-- `setTrackingID` of the tracking module; of the server, the handlers that only show a page, the
-- table of endpoints, the cleaning of old requests, mail, templates, jobs, logs and the command
-- line; markup and styles, the generated table of translations, and the bundled copies of moment,
-- Polymer, autosize, paper-spinner and the web components polyfill.
pub mod Prelude
pub mod Promise
pub mod Json
pub mod Decimal
pub mod Util
pub mod Ajax
pub mod Browser
pub mod Widgets
pub mod Dialogs
pub mod Account
pub mod Localize
pub mod Auth
pub mod Dashboard
pub mod Dict
pub mod Errors
pub mod Platform
pub mod RateLimit
pub mod Server
pub mod Storage
pub mod Tracking
pub mod Whitelist

-- ===== src/Lib.antt =====
-- Coop Messenger: the web client: web/src/app, web/public/sw.js, and the logic of web/src/components.
--
-- The client keeps subscriptions, notifications, users and preferences in an IndexedDB database.
-- Messages reach it in three ways: over a WebSocket per subscription, by web push in the service
-- worker, and by polling. Each way changes the same tables, and the account's subscriptions and
-- preferences are synced into them.
--
-- Prelude: shared names, array methods, optional strings, decimal text.
-- Table, Db: web/src/app/db.js. Dexie is not part of the repository: a table is the record `Table` of
--   operations and of what Dexie documents about them, and every theorem holds for any such tables.
--   Table.Assoc is one, on lists, and serves the tests. Table.Order is the order by time.
-- Types, Events: the objects that are passed around, web/src/app/events.js and actions.js.
-- JsObject: the own and inherited properties of a plain object, in the order of `Object.entries`.
-- Subscriptions: web/src/app/SubscriptionManager.js. `Subscriptions` has the subscriptions and
--   syncFromRemote, `Subscriptions.Stored` the notifications, `Subscriptions.Reads` the sorted reads.
-- Hooks: handleMessage and handleNotification of web/src/components/hooks.js; Hooks.Delivery is
--   useConnectionListeners, the way of a message from the socket to the database.
-- ServiceWorker: handlePush and its handlers of web/public/sw.js; ServiceWorker.Click is handleClick.
-- Poller, Pruner, Workers: web/src/app/Poller.js, Pruner.js, and the timers of all four workers.
-- Connection: web/src/app/Connection.js, one function per handler; Connection.Life is the step
--   relation of a connection, its open sockets and its pending timers, in any order of events.
-- ConnectionManager: web/src/app/ConnectionManager.js, refresh and makeConnectionId;
--   ConnectionManager.Listeners are its listeners.
-- Utils: web/src/app/utils.js: Urls, Auth, Hash (hashCode), Lines (fetchLinesIterator), Shuffle.
-- Api, Account, WebPush, Errors: web/src/app/Api.js, AccountApi.js, SlashCommands.js,
--   VersionChecker.js and errors.js. A request is a record; its response is an argument.
-- Chat: web/src/components/ChatView.jsx. Chat.Messages is which messages are shown and how they are
--   grouped, Chat.Reactions the toggling of reactions, Chat.Typing who is shown as typing.
-- Commands: SlashCommands.js; Commands.Words is `trim`, `split` and `join`. Commands.Input is
--   web/src/components/ChatInput.jsx, as a step relation, and Commands.Requests what it sends.
-- Notifier: web/src/app/Notifier.js, what is supported and permitted, and the notices about it of
--   web/src/components/Navigation.jsx. WebPush: which topics are pushed, of SubscriptionManager.js;
--   WebPush.Listener is webPushSubscription of Notifier.js and useWebPushListener of hooks.js.
-- Display: notificationUtils.js, the notification of the browser that a message becomes.
-- Notifications: the buttons of a notification in web/src/components/Notifications.jsx.
-- App: the routes of routes.js and the selected subscription of App.jsx, in web/src/components.
-- Joining: how the user comes into a chat and leaves it: SubscribeDialog.jsx, InvitePage.jsx,
--   SubscriptionPopup.jsx and useAutoSubscribe of hooks.js, in web/src/components; Joining.Dialog:
--   the pages of SubscribeDialog.jsx, with topicAuth of Api.js;
--   Joining.Conversations: ContactList.jsx and GroupCreate.jsx, direct messages and groups.
-- Contacts: web/src/components/ContactAdd.jsx, the search for users, with its timers and answers.
-- SignIn, Upgrade: Login.jsx, Signup.jsx, the registration of InvitePage.jsx, and UpgradeDialog.jsx.
-- Account.Dialogs, Account.Phone: the dialogs of Account.jsx and ReserveDialogs.jsx in
--   web/src/components, and the verification of phone numbers as a step relation.
-- Admin: web/src/components/AdminPanel.jsx, what an administrator changes, and what the page says of it.
-- Settings: web/src/components/Preferences.jsx, with handleAccountSettingsChange of
--   server/server_account.go, which says what a request changes of the account's settings.
-- Prefs, Users: web/src/app/Prefs.js, UserManager.js and Session.js.
-- Replica: the session of Session.js and its copy in IndexedDB, which several pages and the service
--   worker share, as a step relation of the writes that wait for IndexedDB, may fail, and go on behind
--   their `await`; and the name of the database of db.js.
-- Tests: the theorems applied to concrete data.
--
-- A method that changes the database takes it and returns it changed. Effects on the browser and on
-- other components are a list, in order. An exception is a value of `AppError`. A handler runs as a
-- whole, but where another one can come in at an `await` that matters: the sending of ChatInput and the
-- request of a notification's button are two halves each, with any steps in between, as are the search
-- of ContactAdd and the requests of the dialog of phone numbers, and the events of a connection, of
-- its timers and of the typing timers come in any order. Times and ids are natural
-- numbers; `hashCode` is given modulo 2 ^ 32, as the unsigned value of its 32 bits. `Lines.drain` runs
-- on fuel, one for each code unit of the chunk, and `Decimal.print` on one more than the number; both
-- are enough because every round takes a code unit or a digit.
--
-- Parameters: the tables, their order by time (`order`), `Base64.encode`, `encodeURIComponent`,
-- `toLowerCase`, the day of a time, the decoder of bytes, the parser of a line, the paths that react-router
-- matches, without regard to case, the subscription that the browser has to web push, the
-- responses of `fetch`, the numbers that the browser gives to sockets and timers, random numbers, and
-- the clock. Not modelled: the layout of the pages, the page of a profile, the
-- notifier's calls of the browser, the translation and emoji tables, publishXHR, and the rest of the
-- server.
pub mod Prelude
pub mod Table
pub mod Events
pub mod Types
pub mod Db
pub mod JsObject
pub mod Utils
pub mod Errors
pub mod Prefs
pub mod Subscriptions
pub mod Poller
pub mod Hooks
pub mod ServiceWorker
pub mod Connection
pub mod ConnectionManager
pub mod Pruner
pub mod Workers
pub mod Api
pub mod Account
pub mod Users
pub mod Chat
pub mod Commands
pub mod Notifications
pub mod App
pub mod Joining
pub mod Upgrade
pub mod SignIn
pub mod Display
pub mod Notifier
pub mod Replica
pub mod Settings
pub mod Contacts
pub mod Admin
pub mod WebPush
pub mod Tests

-- ===== src/Db.antt =====
-- web/src/app/db.js: the IndexedDB database of the client, four Dexie tables, each under its
-- primary key ("&id", "&id", "&baseUrl", "&key" in the declared stores).
use coop_messenger.Table.{Table}
use coop_messenger.Table.Assoc.{assoc_table}
use coop_messenger.Types.{Message, Subscription, User, Pref}

pub record Dexie : Type 1 where
  pub subscriptions : Table Subscription (λ s. s.id)
  pub notifications : Table Message (λ n. n.id)
  pub users : Table User (λ u. u.base_url)
  pub prefs : Table Pref (λ p. p.key)

pub record Db (d : Dexie) : Type 0 where
  pub subscriptions : d.subscriptions.Rows
  pub notifications : d.notifications.Rows
  pub users : d.users.Rows
  pub prefs : d.prefs.Rows

abbrev pub assoc_dexie : Dexie
assoc_dexie = record {
  subscriptions = assoc_table (λ s. s.id);
  notifications = assoc_table (λ n. n.id);
  users = assoc_table (λ u. u.base_url);
  prefs = assoc_table (λ p. p.key);
}

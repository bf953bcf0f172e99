-- ===== src/Client/Start.antt =====
-- The constructor and the destructor of Client, and where its files are.
use eternal_blue.Prelude.{
  Bytes, codes, Bool, false, Option, none, some, List, [], ◌∷◌, ◌++◌, if◌then◌else◌, replicate,
}
use eternal_blue.Prelude.Exec.{
  Exec, Result, ok, err, pure, throw, ◌>>=◌, ◌>>◌, crypto_error, local_store_error,
}
use eternal_blue.LocalStore.{LocalStore}
use eternal_blue.Keystore.{Io}
use eternal_blue.HttpClient.{HttpClient}
use eternal_blue.Client.State.{Client}

-- What sqlite3_open and the statements that create the tables come to: a failure, with the message that
-- SQLite gives, or the tables of the file.
pub data Database : Type 0 where
  open_failed schema_failed : Option Bytes → Database
  tables : LocalStore → Database

-- What the process finds when it starts, and the directories that it has made.
pub record Machine : Type 0 where
  pub home : Option Bytes
  pub initialises : Bool
  pub file : Bytes → Option Bytes
  pub ios : List Io
  pub database : Bytes → Database
  pub input : List Bytes
  pub directories : List Bytes

abbrev home_or_here : Option Bytes → Bytes
home_or_here (some h) = h
home_or_here none = codes "."

abbrev pub home_dir : Machine → Bytes
home_dir m = home_or_here m.home

abbrev pub backend_subdir : Bytes → Bytes → Bytes
backend_subdir host port = host ++ (codes "_" ++ port)

abbrev pub eb_dir : Bytes → Bytes → Bytes → Bytes
eb_dir home host port = home ++ (codes "/.eternal-messenger/" ++ backend_subdir host port)

-- mkdir, whose result is ignored.
abbrev mkdir : Bytes → Exec Machine (Unit {0})
mkdir path m = (ok tt, record m { directories = m.directories ++ path ∷ [] })

unfoldable pub ensure_eb_dir : Bytes → Bytes → Exec Machine (Unit {0})
ensure_eb_dir host port m =
    (do mkdir (home_dir m ++ codes "/.eternal-messenger"); mkdir (eb_dir (home_dir m) host port)) m

unfoldable pub keystore_path : Bytes → Bytes → Bytes → Bytes
keystore_path home host port = eb_dir home host port ++ codes "/keys.bin"

unfoldable pub store_path : Bytes → Bytes → Bytes → Bytes
store_path home host port = eb_dir home host port ++ codes "/store.db"

unfoldable pub default_keystore_path : Bytes → Bytes → Exec Machine Bytes
unfolding ensure_eb_dir keystore_path
default_keystore_path host port m =
    (do ensure_eb_dir host port; pure (keystore_path (home_dir m) host port)) m

unfoldable pub default_store_path : Bytes → Bytes → Exec Machine Bytes
unfolding ensure_eb_dir store_path
default_store_path host port m =
    (do ensure_eb_dir host port; pure (store_path (home_dir m) host port)) m

abbrev or_text : Bytes → Option Bytes → Bytes
or_text text none = text
or_text text (some msg) = msg

-- LocalStore::LocalStore
unfoldable pub open_store : Database → Result LocalStore
open_store (open_failed msg) =
    err (local_store_error (codes "open: " ++ or_text (codes "sqlite3_open failed") msg))
open_store (schema_failed msg) =
    err (local_store_error (codes "schema: " ++ or_text (codes "schema creation failed") msg))
open_store (tables store) = ok store

abbrev initialise : Exec Machine (Unit {0})
initialise m =
    (if m.initialises then pure tt else throw (crypto_error (codes "sodium_init failed"))) m

-- The members of a new Client.
abbrev fresh_client : HttpClient → Bytes → LocalStore → Machine → Client
fresh_client http path store m = record {
  http = http;
  keystore = record { path = path; file = m.file path; ios = m.ios };
  store = store;
  drawn = 0;
  readings = 0;
  input = m.input;
  output = [];
  logged_in = false;
  user_id = [];
  username = [];
  session_sk = replicate 32 0;
}

abbrev unconnected : Bytes → Bytes → Bytes → HttpClient
unconnected host port ca_bundle = record {
  host = host;
  port = port;
  ca_bundle = ca_bundle;
  token = [];
  log = [];
}

abbrev opening : Bytes → Exec Machine LocalStore
opening path m = (open_store (m.database path), m)

abbrev assembled : HttpClient → Bytes → LocalStore → Exec Machine Client
assembled http path store m = (ok (fresh_client http path store m), m)

-- Client::Client, whose members are made in the order of their declarations.
unfoldable pub construct : Bytes → Bytes → Bytes → Exec Machine Client
unfolding default_keystore_path default_store_path open_store
construct host port ca_bundle = do
  initialise
  keys ← default_keystore_path host port
  db ← default_store_path host port
  store ← opening db
  assembled (unconnected host port ca_bundle) keys store

-- Client::~Client
unfoldable pub destroyed : Client → Client
destroyed c = record c { session_sk = replicate 32 0 }

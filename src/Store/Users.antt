-- ===== src/Store/Users.antt =====
-- The table of the dashboard's users and the statements of postgresUserStore
-- (internal/store/postgres/postgres_user_store.go). As in the other stores, an operation takes the
-- failure of the database, if there is one. The package bcrypt is a parameter.
pub mod Laws
use go_fire.Base.{
  ℕ, suc, ◌≡◌, Bool, true, ◌||◌, List, [], ◌∷◌, ◌++◌, Option, none, some, Error, Result, ok, err,
  if◌then◌else◌, ltb, ◌==◌, length, any, find?,
}
use go_fire.Text.{Text, same}
use go_fire.Store.Sql.{affected, delete_where}

-- A row of gofire_schema.users.
pub record Row : Type 0 where
  pub id : ℕ
  pub username : Text
  pub password : Text

-- The table, and the sequence of its SERIAL column.
pub record Users : Type 0 where
  pub rows : List Row
  pub next_id : ℕ

-- types.User.
pub record User : Type 0 where
  pub id : ℕ
  pub username : Text
  pub password : Text

-- golang.org/x/crypto/bcrypt. GenerateFromPassword draws a salt, the first argument here;
-- CompareHashAndPassword returns nil where `compare` is true.
pub record Bcrypt : Type 0 where
  pub generate : ℕ → Text → Result Text
  pub compare : Text → Text → Bool
  pub compare-generate :
      (salt : ℕ) (password hash : Text)
      → generate salt password ≡ ok hash
      → compare hash password ≡ true

abbrev pub named : Text → Row → Bool
named username r = same r.username username

-- `DELETE FROM gofire_schema.users WHERE username = $1` through QueryRowContext. Its error, which
-- only Scan would return, is not asked for.
unfoldable pub delete_quietly : Option Error → Text → Users → Users
unfolding delete_where
delete_quietly (some e) username s = s
delete_quietly none username s = record s { rows = delete_where (named username) s.rows }

-- The constraints of the column username: varchar(100) and unique.
abbrev pub violates : Text → Users → Option Error
violates username s =
    if ltb 100 (length username)
    then some "value too long for type character varying(100)"
    else if any (named username) s.rows
    then some "duplicate key value violates unique constraint"
    else none

-- `INSERT … RETURNING id`. The sequence gives a number also where a constraint is violated.
abbrev pub insert : Option Error → Text → Text → Users → Users × Result ℕ
insert (some e) username password s = (s, err e)
insert none username password s = elim (violates username s) [
  | some e ↦ (record s { next_id = suc s.next_id }, err e)
  | none ↦ (
    record {
      rows = s.rows ++ record { id = s.next_id; username = username; password = password } ∷ [];
      next_id = suc s.next_id;
    },
    ok s.next_id,
  )
]

-- The faults are those of the DELETE and of the INSERT.
unfoldable pub create :
    Bcrypt → ℕ → Option Error → Option Error → Text → Text → Users → Users × Result ℕ
unfolding delete_quietly
create bcrypt salt fault fault' username password s =
    let s' = delete_quietly fault username s in
    elim (bcrypt.generate salt password) [
      | err e ↦ (s', err e)
      | ok hash ↦ insert fault' username hash s'
    ]

abbrev check_password : Bcrypt → Text → Option Row → Result (Option User)
check_password bcrypt password none = ok none
check_password bcrypt password (some r) =
    if bcrypt.compare r.password password
    then ok (some (record { id = r.id; username = r.username; password = [] }))
    else err "user not found"

-- A nil user is none.
unfoldable pub find : Bcrypt → Option Error → Text → Text → Users → Result (Option User)
find bcrypt (some e) username password s = err e
find bcrypt none username password s =
    check_password bcrypt password (find? (named username) s.rows)

abbrev without_password : Option Row → Option User
without_password none = none
without_password (some r) = some (record { id = r.id; username = r.username; password = [] })

unfoldable pub find_by_username : Option Error → Text → Users → Result (Option User)
find_by_username (some e) username s = err e
find_by_username none username s = ok (without_password (find? (named username) s.rows))

unfoldable pub delete : Option Error → Text → Users → Users × Result (Unit {0})
unfolding affected delete_where
delete (some e) username s = (s, err e)
delete none username s = (
  record s { rows = delete_where (named username) s.rows },
  (if affected (named username) s.rows == 0 then err "no user found to delete" else ok tt),
)

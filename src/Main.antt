-- ===== src/Main.antt =====
-- The program of cmd/cache/main.go: the lines of the standard input are an argument, and `fuel` bounds the
-- rounds of its loop, which ends only at the operation "exit". No peer joins or leaves while it runs.
use cache_learning_notes.Base.{
  ℕ, zero, suc, List, [], ◌∷◌, ◌++◌, Option, none, some, Bool, true, false, ◌||◌, ◌&&◌, Text,
  text_eq, ◌=?◌, ◌==◌, Exec, ok, no_fuel, ◌>>=◌, length, if◌then◌else◌,
}
use cache_learning_notes.Base.Int.{ℤ}
use cache_learning_notes.ConHash.Map.{Config}
use cache_learning_notes.Database.{World}
use cache_learning_notes.Peer.Picker.{new_client_picker}
use cache_learning_notes.Registry.Register.{Answers}
use cache_learning_notes.Server.Handlers
use cache_learning_notes.Server.Handlers.{
  ByteView, Server, Clock, new_server, new_group, register_group_to_server,
  register_peers_to_server, start, set_to_cache, set_to_cache_and_redis, delete_cache_and_redis,
  get_from_cache_and_redis,
}
use cache_learning_notes.Store.Ops.{new_options, lru}

-- `strings.TrimRight(s, "\r\n")`
unfoldable pub trim_right : Text → Text
trim_right [] = []
trim_right (x ∷ xs) =
    let rest = trim_right xs in if (x == 10 || x == 13) && length rest == 0 then [] else x ∷ rest

-- The next line, without its end; at the end of the input an empty one.
unfoldable pub read_line : List Text → Text × List Text
unfolding trim_right
read_line [] = ([], [])
read_line (line ∷ lines) = (trim_right line, lines)

pub data Output : Type 0 where
  got : Option ByteView → Output
  was_set : Output
  was_deleted : Output

abbrev pub get_word : Text
get_word = b'g' ∷ b'e' ∷ b't' ∷ []

abbrev pub set_word : Text
set_word = b's' ∷ b'e' ∷ b't' ∷ []

abbrev pub delete_word : Text
delete_word = b'd' ∷ b'e' ∷ b'l' ∷ b'e' ∷ b't' ∷ b'e' ∷ []

abbrev pub set_hot_word : Text
set_hot_word = b's' ∷ b'e' ∷ b't' ∷ b'_' ∷ b'h' ∷ b'o' ∷ b't' ∷ []

abbrev pub exit_word : Text
exit_word = b'e' ∷ b'x' ∷ b'i' ∷ b't' ∷ []

abbrev pub cache_word : Text
cache_word = b'c' ∷ b'a' ∷ b'c' ∷ b'h' ∷ b'e' ∷ []

abbrev pub localhost : Text
localhost = b'l' ∷ b'o' ∷ b'c' ∷ b'a' ∷ b'l' ∷ b'h' ∷ b'o' ∷ b's' ∷ b't' ∷ b':' ∷ []

module _ {C W : Type 0} (world : World C W) where
  -- The lines that are left, the server, the world, what is printed, and whether the loop goes on.
  abbrev pub Round : Type 0
  Round = List Text × Server C × W × List Output × Bool

  unfoldable pub get_round : Clock → List Text → Server C → W → Exec Round
  get_round clock lines s w = do
    let (key, rest) = read_line lines
    (s', w', value) ← get_from_cache_and_redis world s w key clock
    ok (rest, s', w', got value ∷ [], true)

  unfoldable pub set_round : List Text → Server C → W → Exec Round
  set_round lines s w = do
    let (key, l₁) = read_line lines
    let (value, l₂) = read_line l₁
    (s', w', _) ← set_to_cache_and_redis world s w key value
    ok (l₂, s', w', was_set ∷ [], true)

  unfoldable pub delete_round : List Text → Server C → W → Exec Round
  delete_round lines s w = do
    let (key, rest) = read_line lines
    (s', w', _) ← delete_cache_and_redis world s w key
    ok (rest, s', w', was_deleted ∷ [], true)

  unfoldable pub set_hot_round : ℤ → List Text → Server C → W → Exec Round
  set_hot_round now lines s w = do
    let (key, l₁) = read_line lines
    let (value, l₂) = read_line l₁
    s' ← set_to_cache s key value now
    ok (l₂, s', w, was_set ∷ [], true)

  unfoldable pub round : Clock → List Text → Server C → W → Exec Round
  unfolding get_round set_round delete_round set_hot_round
  round clock lines s w =
      let (operation, rest) = read_line lines in
      if operation =? get_word
      then get_round clock rest s w
      else if operation =? set_word
      then set_round rest s w
      else if operation =? delete_word
      then delete_round rest s w
      else if operation =? set_hot_word
      then set_hot_round clock.first rest s w
      else if operation =? exit_word
      then (Handlers.close s >>= λ s'. ok (rest, s', w, [], false))
      else ok (rest, s, w, [], true)

  -- `clock` has the readings of the clock of each round.
  unfoldable pub main_loop :
      ℕ → (ℕ → Clock) → List Text → Server C → W → Exec (Server C × W × List Output)
  unfolding round
  main_loop zero clock lines s w = no_fuel
  main_loop (suc fuel) clock lines s w = round (clock fuel) lines s w >>= λ r. elim r.4 [
    | false ↦ ok (r.1, r.2, r.3)
    | true ↦ main_loop fuel clock r.0 r.1 r.2 >>= λ t. ok (t.0, t.1, r.3 ++ t.2)
  ]

  -- The server before the loop. A picker that could not be made is nil.
  unfoldable pub set_up : Config → Text → Bool → Answers → Bool → Exec (Server C)
  set_up config port has_etcd answers listens = do
    let addr = localhost ++ port
    let group = new_group cache_word addr new_options lru
    let s = register_group_to_server group (new_server addr cache_word)
    let picker = new_client_picker {C = C} config addr cache_word none [] has_etcd
    let s' : Server C = elim picker [ none ↦ s | some p ↦ register_peers_to_server p s ]
    (s'', _, _) ← start answers listens s'
    ok s''

  unfoldable pub main :
      Config → Text → Bool → Answers → Bool → ℕ → (ℕ → Clock) → List Text → W → Exec (List Output)
  unfolding set_up main_loop
  main config port has_etcd answers listens fuel clock lines w = do
    s ← set_up config port has_etcd answers listens
    (_, _, printed) ← main_loop fuel clock lines s w
    ok printed

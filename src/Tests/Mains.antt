-- ===== src/Tests/Mains.antt =====
-- The program of cmd/cache at a concrete input: a node without peers writes a key, reads it, deletes it
-- and reads it again.
use cache_learning_notes.Base.{
  ℕ, ◌≡◌, refl, List, [], ◌∷◌, none, some, true, false, Text, text_eq, ok,
}
use cache_learning_notes.Base.Int.{pos}
use cache_learning_notes.Main
use cache_learning_notes.Main.{
  Output, got, was_set, was_deleted, main, get_word, set_word, delete_word, exit_word,
}
use cache_learning_notes.Registry.Register.{Answers}
use cache_learning_notes.Server.Handlers.{Clock}
use cache_learning_notes.Tests.Layers.{a, b, c, program}
use cache_learning_notes.Tests.Rings.{run, three_each}
use cache_learning_notes.Tests.Servers.{redis}
use cache_learning_notes.Database
use cache_learning_notes.Peer.Picker
use cache_learning_notes.Registry.Register
use cache_learning_notes.Server.Handlers
use cache_learning_notes.Store.Bucket
use cache_learning_notes.Store.Hash
use cache_learning_notes.Store.Ops

abbrev no_etcd : Answers
no_etcd = record {
  has_client = false;
  interfaces = none;
  lease = none;
  was_put = false;
  is_kept_alive = false;
}

abbrev clock : ℕ → Clock
clock n = record { first = pos 5; second = pos 5; third = pos 5 }

abbrev lines : List Text
lines = set_word ∷ a ∷ b ∷ get_word ∷ a ∷ delete_word ∷ a ∷ get_word ∷ a ∷ exit_word ∷ []

session :
    main {C = Text} redis three_each c true no_etcd true 5 clock lines []
    ≡ ok (was_set ∷ got (some b) ∷ was_deleted ∷ got none ∷ [])
unfolding run program Main.trim_right Main.read_line Main.get_round Main.set_round Main.delete_round
    Main.set_hot_round Main.round Main.main_loop Main.set_up Main.main Database.new_redis
    Database.redis_get Database.redis_set Database.redis_delete Picker.apply_options
    Picker.new_client_picker Picker.close Picker.pick_peer Register.first_ip Register.get_local_ip
    Register.full_addr Register.register_lease Register.register Handlers.new_group
    Handlers.close_group Handlers.new_server Handlers.register_peers_to_server
    Handlers.register_group_to_server Handlers.start Handlers.close Handlers.route Handlers.client
    Handlers.set_to_cache Handlers.delete_from_cache Handlers.load Handlers.get_self
    Handlers.get_from Handlers.get Handlers.set_self Handlers.set_at Handlers.set
    Handlers.delete_self Handlers.delete_at Handlers.delete Handlers.set_to_cache_and_redis
    Handlers.delete_cache_and_redis Handlers.get_from_cache_and_redis Bucket.is_some
    Bucket.expiration_time Bucket.contains Bucket.delete_calls Bucket.delete Bucket.unless_stale
    Bucket.get_level2 Bucket.get_second Bucket.get Bucket.displaced Bucket.set_with_expiration
    Hash.hash_from Hash.hash_bkrd Hash.mask_of_next_pow_of_2 Hash.bucket_index Ops.new_options
    Ops.with_defaults Ops.new_lru2_cache Ops.new_store Ops.on_bucket Ops.get Ops.set_with_expiration
    Ops.set Ops.delete Ops.close
session = refl

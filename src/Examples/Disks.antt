-- ===== src/Examples/Disks.antt =====
-- Saving and loading the store with two nodes.
use proxyscene.Common.{
  All, [], arith, contains, err, false, lowers_to, ok, refl, some, subst, sym, trim_space,
  write_failed, ◌<◌, ◌∷◌, ◌≡◌, ◌≤◌, ◌⊎◌,
}
use proxyscene.Examples.Stores.{test_checker, test_in_order, two_nodes}
use proxyscene.Links.{prepare_stored_node}
use proxyscene.Store.{Store, known_scene}
use proxyscene.Store.Crash.{IsOldOrNew, crash_disks, crash_safe, save_failed, saved}
use proxyscene.Store.Generation.{IsAbove, IsDiskBelow, next_candidate_generation}
use proxyscene.Store.Persist.{
  Codec, Disk, absent, bytes, decode_store, done, failed_after, failed_before,
  highest_store_generation, is_object, load_store_raw, max_generation, next_candidate, save_store,
}
use proxyscene.Store.Valid.{IsValid}
use proxyscene.Store.Validate.{safe_store_identifier, subscription_id, validate_store_semantics}
use proxyscene.Systemd.{safe_systemd_target_name}
use proxyscene.Text.{sanitize_display_text, sanitize_node_name}

abbrev three : Store
three = record two_nodes { generation = 4 }

-- The text of every store is a brace, and it decodes to the store of generation 4.
abbrev test_codec : Codec
test_codec = record { encode = λ st. b'{' ∷ []; decode = λ text. some three }

abbrev old_disk : Disk
old_disk = record { main = absent; backup = bytes [] }

three_next : next_candidate test_checker test_codec old_disk two_nodes ≡ ok three
unfolding next_candidate highest_store_generation decode_store validate_store_semantics trim_space
    contains lowers_to safe_store_identifier subscription_id prepare_stored_node sanitize_node_name
    known_scene safe_systemd_target_name sanitize_display_text
three_next = refl

crash_safe_example :
    All
      (λ left.
        IsOldOrNew
          (load_store_raw test_checker test_codec (ok tt) old_disk)
          three
          (load_store_raw test_checker test_codec (ok tt) left))
      (crash_disks test_codec failed_after failed_before old_disk two_nodes three)
unfolding is_object
crash_safe_example =
    crash_safe test_checker test_codec test_in_order (λ i. refl) (ok tt) failed_after failed_before
      old_disk two_nodes three three_next refl refl

abbrev new_disk : Disk
new_disk = record { main = bytes (b'{' ∷ []); backup = bytes (b'{' ∷ []) }

three_saved :
    save_store test_checker test_codec done done old_disk two_nodes ≡ (new_disk, three, ok tt)
unfolding save_store highest_store_generation decode_store validate_store_semantics trim_space
    contains lowers_to safe_store_identifier subscription_id prepare_stored_node sanitize_node_name
    known_scene safe_systemd_target_name sanitize_display_text
three_saved = refl

saved_example :
    (next_candidate test_checker test_codec old_disk two_nodes ≡ ok three)
    × (new_disk ≡ record { main = bytes (b'{' ∷ []); backup = bytes (b'{' ∷ []) })
    × IsValid test_checker three
saved_example =
    saved test_checker test_codec test_in_order (λ i. refl) done done old_disk two_nodes three_saved

failing :
    (save_store test_checker test_codec done failed_after old_disk two_nodes).2 ≡ err write_failed
unfolding save_store highest_store_generation decode_store validate_store_semantics trim_space
    contains lowers_to safe_store_identifier subscription_id prepare_stored_node sanitize_node_name
    known_scene safe_systemd_target_name
failing = refl

save_failed_example :
    ((save_store test_checker test_codec done failed_after old_disk two_nodes).1 ≡ two_nodes)
    × (((save_store test_checker test_codec done failed_after old_disk two_nodes).0.main ≡ absent)
        ⊎ (failed_after ≡ failed_after))
save_failed_example =
    save_failed test_checker test_codec done failed_after old_disk two_nodes failing

-- A disk on which the store of generation 4 stands already.
three_next_again :
    next_candidate test_checker test_codec new_disk two_nodes
    ≡ ok (record two_nodes { generation = 5 })
unfolding next_candidate highest_store_generation decode_store validate_store_semantics trim_space
    contains lowers_to safe_store_identifier subscription_id prepare_stored_node sanitize_node_name
    known_scene safe_systemd_target_name sanitize_display_text
three_next_again = refl

three_read : decode_store test_checker test_codec (b'{' ∷ []) ≡ ok (three, false)
unfolding decode_store validate_store_semantics trim_space contains lowers_to safe_store_identifier
    subscription_id prepare_stored_node sanitize_node_name known_scene safe_systemd_target_name
    sanitize_display_text
three_read = refl

new_disk_small : IsDiskBelow test_checker test_codec max_generation new_disk
new_disk_small =
    let small = subst (λ r. IsAbove r max_generation) (sym three_read) (omega arith) in
    (small, small)

next_candidate_generation_example :
    (3 < 5) × IsDiskBelow test_checker test_codec 4 new_disk × (5 ≤ max_generation)
next_candidate_generation_example =
    next_candidate_generation test_checker test_codec test_in_order new_disk two_nodes
      (record two_nodes { generation = 5 }) (omega arith) new_disk_small three_next_again

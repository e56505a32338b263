-- ===== src/Nats/Provisioner/Tests.antt =====
-- libs/nats-jetstream-provisioner/src/nats-jetstream-provisioner.service.ts on a server with one stream.
use ocean_chat_private.Prelude.{
  ℕ, ◌≡◌, ◌≢◌, ◌==◌, refl, ap, sym, ◌∙◌, List, [], ◌∷◌, Option, none, some, false, ok, same_text,
  same_text_refl, same_text_sound, if◌then◌else◌, Bool-cases, inl, inr,
}
use ocean_chat_private.Nats.Provisioner.{
  Text, Config, StreamConfig, JetStream, IsJetStream, Faults, ensure_streams, or_else, option_of,
  normal_option,
}
use ocean_chat_private.Nats.Provisioner.Streams.{wanted, NoFaults, IsNamed, streams_provisioned}

abbrev Server : Type 0
Server = Text → Option (Config ℕ)

abbrev write : Text → Config ℕ → Server → Server
write n c s m = if same_text m n then some c else s m

write_same : (n : Text) (c : Config ℕ) (s : Server) → write n c s n ≡ some c
write_same n c s = rw (same_text_refl n) refl

write_other : (n m : Text) (c : Config ℕ) (s : Server) → m ≢ n → write n c s m ≡ s m
write_other n m c s d = elim (Bool-cases (same_text m n)) [
  | inl same ↦ absurd (d (same_text_sound m n same))
  | inr differs ↦ rw differs refl
]

write_there : (n : Text) (c : Config ℕ) (s : Server) → write n c s n ≢ none
write_there n c s h = absurd (some_config c (sym (write_same n c s) ∙ h))
  where
    some_config : (c : Config ℕ) → some c ≢ none
    some_config c h = cc

-- A limit of 0 is written as 1000.
abbrev normal : ℕ → ℕ → ℕ
normal k v = if v == 0 then 1000 else v

-- The options of a stream with the given ones over them; a new stream has 0 for the others.
abbrev merged : Config ℕ → Option (Config ℕ) → Config ℕ
merged c old k = or_else (normal_option normal k (c k)) (or_else (option_of k old) (some 0))

abbrev updated : Config ℕ → Option (Config ℕ) → Config ℕ
updated c old k = or_else (normal_option normal k (c k)) (option_of k old)

abbrev server : JetStream ℕ
server = record {
  State = Server;
  info = λ n s. s n;
  update = λ n c s. write n (updated c (s n)) s;
  add = λ n c s. write n (merged c none) s;
  normal = normal;
}

server-IsJetStream : IsJetStream server
server-IsJetStream = record {
  info-update = λ n c s k there. ap (option_of k) (write_same n (updated c (s n)) s);
  update_there = λ n c s there. write_there n (updated c (s n)) s;
  info-update_other = λ n m c s d. write_other n m (updated c (s n)) s d;
  info-add = λ n c s k v absent h.
      ap (option_of k) (write_same n (merged c none) s)
      ∙ ap (λ o. or_else (normal_option normal k o) (some 0)) h;
  add_there = λ n c s absent. write_there n (merged c none) s;
  info-add_other = λ n m c s d. write_other n m (merged c none) s d;
}

abbrev no_faults : Faults
no_faults = record { connect = false; info = λ n. false; update = λ n. false; add = λ n. false }

-- One stream, whose every option is 9.
abbrev before : Server
before m = if same_text m (97 ∷ []) then some (λ k. some 9) else none

abbrev only : ℕ → ℕ → Config ℕ
only k v i = if i == k then some v else none

abbrev configs : List (StreamConfig ℕ)
configs =
    record { name = some (97 ∷ []); config = only 1 4 }
    ∷ record { name = some (98 ∷ []); config = only 1 5 }
    ∷ record { name = some (97 ∷ []); config = only 2 0 }
    ∷ []

there : server.info (97 ∷ []) before ≢ none
unfolding same_text
there h = some_config (λ k. some 9) h
  where
    some_config : (c : Config ℕ) → some c ≢ none
    some_config c h = cc

streams_provisioned_example :
    ((ensure_streams server no_faults configs before).1 ≡ ok tt)
    × (option_of 1 (server.info (97 ∷ []) (ensure_streams server no_faults configs before).0)
        ≡ or_else (wanted server 1 (97 ∷ []) configs) (option_of 1 (server.info (97 ∷ []) before)))
unfolding NoFaults IsNamed
streams_provisioned_example =
    streams_provisioned server server-IsJetStream no_faults configs before (97 ∷ []) 1
      (refl, (λ n. refl), (λ n. refl), (λ n. refl))
      ((97 ∷ [], refl), ((98 ∷ [], refl), ((97 ∷ [], refl), tt))) (inl there)

-- The first configuration of the stream gives the first option, the last one the second, and none the third.
three_options :
    (wanted server 1 (97 ∷ []) configs ≡ some 4)
    × (wanted server 2 (97 ∷ []) configs ≡ some 1000)
    × (wanted server 3 (97 ∷ []) configs ≡ none)
unfolding wanted same_text
three_options = (refl, refl, refl)

-- ===== src/Tests/Scans.antt =====
-- The theorems on the scanner, the claims and the packed indices.
use world_tree.Prelude.{
  ◌==◌, if◌then◌else◌, ap, ◌∙◌, ◌+◌, ℕ, ◌-◌, ◌^◌, ◌≡◌, refl, inl, inr, Option, none, some, List, [],
  ◌∷◌, arith,
}
use world_tree.Exec.{ok, err, out_of_fuel}
use world_tree.Chain.{Log, Filter, Middleware, filter_for}
use world_tree.BlockScanner.{BlockScanner, new, next, scan, window_end}
use world_tree.BlockScanner.Complete.{span, Answers, next_complete}
use world_tree.BlockScanner.Failure.{next-window_max}
use world_tree.Claims.{ClaimState}
use world_tree.Indices.{pack_indices, unpack_indices}
use world_tree.Indices.RoundTrip.{unpack_indices-pack_indices, pack_indices-unpack_indices}
use world_tree.Tests.Contract.{provider, chain_logs, log_of, logs_in, mined, span-mined}

-- Windows of two blocks, from block 3.
abbrev pub scanner : BlockScanner
scanner = record { last_synced_block = 3; window_size = 1; filter = filter_for 1 2 }

pub scanner-Answers : Answers chain_logs scanner provider 6
scanner-Answers = record { ranges = λ a b le short known. refl }

next_complete_example :
    next 10 provider scanner ≡ (ok (span chain_logs 4 3), record scanner { last_synced_block = 6 })
next_complete_example =
    next_complete chain_logs scanner provider 10 6 scanner-Answers refl (omega arith) (omega arith)
      (omega arith)

span-run : span chain_logs 4 3 ≡ log_of 50 ∷ log_of 60 ∷ []
unfolding span
span-run = refl

-- The provider fails on the second window.
abbrev pub failing : Middleware ℕ
failing = record {
  get_block_number = inr 6;
  get_logs = λ f. elim f.from_block [
    | none ↦ inl 8
    | some a ↦ if a == 4 then inr (log_of 50 ∷ []) else inl 9
  ];
  get_transaction = λ h. inr none;
  get_block = λ n. inr none;
}

failing-run : (next 10 failing scanner).0 ≡ err 9
unfolding next scan window_end
failing-run = refl

next-window_max_example : (next 1000 provider (new (2 ^ 64 - 1) 3 (filter_for 1 2))).0 ≡ out_of_fuel
unfolding new
next-window_max_example =
    next-window_max (new (2 ^ 64 - 1) 3 (filter_for 1 2)) provider 1000 6 refl (λ a b. (_, refl))
      refl (omega arith) (omega arith)

unpack_indices-pack_indices_example :
    unpack_indices (pack_indices (1 ∷ 4294967295 ∷ [])) ≡ 1 ∷ 4294967295 ∷ []
unpack_indices-pack_indices_example =
    unpack_indices-pack_indices (1 ∷ 4294967295 ∷ []) (omega arith, (omega arith, tt))

pack_indices-unpack_indices_example :
    pack_indices (unpack_indices (0 ∷ 1 ∷ 2 ∷ 3 ∷ 9 ∷ [])) ≡ 0 ∷ 1 ∷ 2 ∷ 3 ∷ []
pack_indices-unpack_indices_example =
    pack_indices-unpack_indices (0 ∷ 1 ∷ 2 ∷ 3 ∷ 9 ∷ [])
      (omega arith, (omega arith, (omega arith, (omega arith, (omega arith, tt)))))

-- Block 5 has a transfer of 77 to the address 42.
abbrev pub transfer : Log
transfer = record { transaction_hash = some 50; topics = 1 ∷ 42 ∷ []; payload = 77 ∷ [] }

abbrev pub transfers : ℕ → List Log
transfers n = if n == 5 then transfer ∷ [] else []

abbrev pub token : Middleware ℕ
token = record {
  get_block_number = inr 6;
  get_logs = λ f. inr (logs_in transfers f);
  get_transaction = λ h. inr none;
  get_block = λ n. inr none;
}

-- The chain's provider and the token's when the head is block `latest`.
abbrev pub provider_at : ℕ → Middleware ℕ
provider_at latest = record provider {
  get_block_number = inr latest;
  get_logs = λ f. inr (logs_in (mined latest chain_logs) f);
}

abbrev pub token_at : ℕ → Middleware ℕ
token_at latest = record token {
  get_block_number = inr latest;
  get_logs = λ f. inr (logs_in (mined latest transfers) f);
}

pub mined-Answers :
    (logs_of : ℕ → List Log) (latest : ℕ) (s : BlockScanner) (m : Middleware ℕ)
    → ((f : Filter) → m.get_logs f ≡ inr (logs_in (mined latest logs_of) f))
    → Answers logs_of s m latest
mined-Answers logs_of latest s m answer = record {
  ranges = λ a b le short known.
      answer _ ∙ ap inr (span-mined latest logs_of a (b + 1 - a) (omega (arith, le, known)));
}

abbrev pub first_word : List ℕ → Option ℕ
first_word [] = none
first_word (x ∷ xs) = some x

abbrev pub claims : ClaimState
claims = record {
  updater = record { address = 1; latest_synced_block = 3; block_scanner = scanner };
  printed = [];
}

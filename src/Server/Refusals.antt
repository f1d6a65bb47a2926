-- ===== src/Server/Refusals.antt =====
-- Requests that are refused.
use circonus_agent.Prelude.{
  ◌≤◌, ◌≡◌, refl, inl, inr, not, ◌&&◌, Option, none, some, List, [], ◌∷◌, ◌++◌, arith, Bool-cases,
}
use circonus_agent.Prelude.Bytes.{Bytes, codes, is_empty, equal}
use circonus_agent.Plugins.Output.{Lib, Metrics}
use circonus_agent.Plugins.Names.{remove_all_from}
use circonus_agent.Builtins.{CollectorOps}
use circonus_agent.Receiver.Samples
use circonus_agent.Receiver.Parse.{Parsed, recorded, no_metrics, no_json}
use circonus_agent.Server.Paths.{
  Target, target_of, health, run_items, inventory_list, app_stats, prom_output, options,
  write_metrics, prom_metrics, unknown_path, wrong_method,
}
use circonus_agent.Server.Collect.{Config, LogLevel, Server, Surroundings, get_metrics}
use circonus_agent.Server.Export.{Printer}
use circonus_agent.Server.Handlers.{
  Response, Written, write_header, write_text, sent_status, set_level, first_level, set_option,
  set_options, accepts_gzip, run_id, Request, Encoders, or_braces, compressed, encode_response,
  known_item, conduits_of, run_handler, after_write, write_handler, handle, router,
}

-- The status of an answer to options is 200 or 400.
abbrev IsMild : Written → Type 0
IsMild w = sent_status w.sent ≤ 400

write_header-IsMild : (w : Written) → IsMild w → IsMild (write_header 400 w)
write_header-IsMild w h = ground arith

write_text-IsMild : (t : Bytes) (w : Written) → IsMild w → IsMild (write_text t w)
write_text-IsMild t w h = ground arith

set_level-IsMild :
    (lowered name : Bytes) (w : Written) (level : LogLevel)
    → IsMild w
    → IsMild (set_level lowered name w level).0
unfolding set_level
set_level-IsMild lowered name w level h = ground arith

first_level-IsMild :
    (to_lower : Bytes → Bytes) (vs : List Bytes) (w : Written) (level : LogLevel)
    → IsMild w
    → IsMild (first_level to_lower vs w level).0
first_level-IsMild to_lower [] w level h = h
first_level-IsMild to_lower (v ∷ vs) w level h = set_level-IsMild (to_lower v) v w level h

set_option-IsMild :
    (to_lower : Bytes → Bytes) (k : Bytes) (vs : List Bytes) (w : Written) (level : LogLevel)
    → IsMild w
    → IsMild (set_option to_lower k vs w level).0
set_option-IsMild to_lower k vs w level h =
    elim (Bool-cases (equal (to_lower k) (codes "log_level"))) [
      | inl known ↦ rw known (first_level-IsMild to_lower vs w level h)
      | inr unknown ↦ rw unknown (
          write_text-IsMild (codes "unknown option " ++ k) (write_header 400 w)
            (write_header-IsMild w h))
    ]

set_options-IsMild :
    (to_lower : Bytes → Bytes) (query : List (Bytes × List Bytes)) (w : Written) (level : LogLevel)
    → IsMild w
    → IsMild (set_options to_lower query w level).0
unfolding set_options
set_options-IsMild to_lower [] w level h = h
set_options-IsMild to_lower ((k, vs) ∷ query) w level h =
    set_options-IsMild to_lower query _ _ (set_option-IsMild to_lower k vs w level h)

module _ (lib : Lib) (ops : CollectorOps lib) (rlib : Samples.Lib) (out : Printer lib) where
  abbrev Answered : Type 0
  Answered = Response × Server lib ops rlib.Float

  -- An answer that refuses leaves the server as it was.
  abbrev pub RefusesOnly : Server lib ops rlib.Float → Answered → Type 0
  RefusesOnly s (a, after) = 403 ≤ a.status → after ≡ s

  pub metrics_status :
      (cfg : Config) (enc : Encoders lib ops rlib out) (accepted : Bytes) (m : Metrics lib)
      → (encode_response lib ops rlib out cfg enc accepted m).status ≡ 200
  unfolding encode_response
  metrics_status cfg enc accepted m =
      elim (Bool-cases (not cfg.disable_gzip && accepts_gzip accepted)) [
        | inr plain ↦ rw plain refl
        | inl wanted ↦
            rw wanted
              (compressed_status (enc.gzip (or_braces lib ops rlib out (enc.encode_metrics m))))
      ]
    where
      compressed_status : (o : Option Bytes) → (compressed lib ops rlib out o).status ≡ 200
      compressed_status none = refl
      compressed_status (some z) = refl

  run_handler-RefusesOnly :
      (cfg : Config) (enc : Encoders lib ops rlib out) (x : Surroundings lib ops rlib.Float)
      (r : Request lib ops rlib out) (s : Server lib ops rlib.Float)
      → RefusesOnly s (run_handler lib ops rlib out cfg enc x r s)
  unfolding run_handler
  run_handler-RefusesOnly cfg enc x r s =
      elim (Bool-cases
        (not (is_empty (run_id r.path)) && not (known_item lib ops rlib out s (run_id r.path)))) [
          | inl unknown ↦ rw unknown (λ _. refl)
          | inr known ↦ rw known (λ refused. absurd (
              omega (
                arith,
                metrics_status cfg enc r.accept_encoding
                    (get_metrics lib ops rlib.Float cfg x
                      (conduits_of lib ops rlib out s (run_id r.path)) (run_id r.path) s).0,
              )))
        ]

  after_write-RefusesOnly :
      (s : Server lib ops rlib.Float) (p : Parsed rlib × Option (List Bytes))
      → RefusesOnly s (after_write lib ops rlib out s p)
  after_write-RefusesOnly s (recorded calls, base) = λ refused. absurd (omega arith)
  after_write-RefusesOnly s (no_metrics, base) = λ refused. absurd (omega arith)
  after_write-RefusesOnly s (no_json, base) = λ refused. absurd (omega arith)

  write_handler-RefusesOnly :
      (cfg : Config) (r : Request lib ops rlib out) (s : Server lib ops rlib.Float)
      → RefusesOnly s (write_handler lib ops rlib out cfg r s)
  unfolding write_handler
  write_handler-RefusesOnly cfg r s =
      elim (Bool-cases (is_empty (remove_all_from 0 (codes "/write/") r.path))) [
        | inl nothing ↦ rw nothing (λ _. refl)
        | inr named_item ↦ rw named_item (after_write-RefusesOnly s _)
      ]

  handle-RefusesOnly :
      (cfg : Config) (enc : Encoders lib ops rlib out) (x : Surroundings lib ops rlib.Float)
      (r : Request lib ops rlib out) (s : Server lib ops rlib.Float) (t : Target)
      → RefusesOnly s (handle lib ops rlib out cfg enc x r s t)
  unfolding handle
  handle-RefusesOnly cfg enc x r s health = λ _. refl
  handle-RefusesOnly cfg enc x r s run_items = elim (Bool-cases cfg.multi_agent) [
    | inl many ↦ rw many (λ _. refl)
    | inr single ↦ rw single (run_handler-RefusesOnly cfg enc x r s)
  ]
  handle-RefusesOnly cfg enc x r s inventory_list = λ _. refl
  handle-RefusesOnly cfg enc x r s app_stats = λ _. refl
  handle-RefusesOnly cfg enc x r s prom_output = λ _. refl
  handle-RefusesOnly cfg enc x r s options = λ refused. absurd (
      omega (
        arith,
        set_options-IsMild lib.to_lower r.query (record { sent = none; text = [] }) s.log_level
            (omega arith),
      ))
  handle-RefusesOnly cfg enc x r s write_metrics = write_handler-RefusesOnly cfg r s
  handle-RefusesOnly cfg enc x r s prom_metrics = λ _. refl
  handle-RefusesOnly cfg enc x r s unknown_path = λ _. refl
  handle-RefusesOnly cfg enc x r s wrong_method = λ _. refl

  -- A request that is forbidden, or whose path, item or method is unknown (its answer has a status of 403
  -- or above), changes nothing on the server: nothing is run or recorded, and no metrics are taken.
  pub router_refuses :
      (cfg : Config) (enc : Encoders lib ops rlib out) (x : Surroundings lib ops rlib.Float)
      (r : Request lib ops rlib out) (s : Server lib ops rlib.Float)
      → 403 ≤ (router lib ops rlib out cfg enc x r s).0.status
      → (router lib ops rlib out cfg enc x r s).1 ≡ s
  unfolding router
  router_refuses cfg enc x r s = handle-RefusesOnly cfg enc x r s (target_of r.method r.path)

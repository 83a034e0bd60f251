-- ===== src/Tests/Managers.antt =====
-- A runtime on which every call succeeds, and the start of the manager on it.
use backup_operator.Base.{◌≡◌, ◌↔◌, refl, ok, [], ◌∷◌, if◌then◌else◌}
use backup_operator.Manager.Options.{
  default_flags, manager_options, with_authentication_and_authorization, no_filter,
}
use backup_operator.Manager.Options.Protocols.{Offers, manager_options-Offers}
use backup_operator.Manager.Setup.{Runtime}
use backup_operator.Manager.Main.{returned, main}
use backup_operator.Manager.Main.Starts.{IsStarted, main_iff}
use backup_operator.Tests.Samples.{nightly}
use backup_operator.Tests.Cluster.{Cluster, test_client, cluster_of}

abbrev runtime : Runtime test_client
runtime = record {
  add_client_go_to_scheme = λ w. (ok tt, w);
  add_backup_to_scheme = λ w. (ok tt, w);
  new_manager = λ options w. (ok tt, record w { events = options.leader_election_id ∷ w.events });
  complete_controller =
      λ builder reconciler w. (ok tt, record w { events = "controller" ∷ w.events });
  complete_webhook = λ builder w. (ok tt, record w { events = "webhook" ∷ w.events });
  getenv = λ name w. "";
  add_healthz_check = λ name w. (ok tt, record w { events = name ∷ w.events });
  add_readyz_check = λ name w. (ok tt, record w { events = name ∷ w.events });
  start = λ w. (ok tt, record w { events = "started" ∷ w.events });
}

abbrev before : Cluster
before = cluster_of nightly []

abbrev after : Cluster
after = record before {
  events =
      "started" ∷ "readyz" ∷ "healthz" ∷ "webhook" ∷ "controller" ∷ "controller"
      ∷ "a6ca9057.mybackup.com" ∷ [];
}

main_runs : main runtime default_flags before ≡ (returned, after)
unfolding main
main_runs = refl

main_iff_example :
    (main runtime default_flags before ≡ (returned, after))
    ↔ IsStarted runtime default_flags before after
main_iff_example = main_iff runtime default_flags before after

manager_options-Offers_example :
    Offers default_flags (manager_options default_flags).webhook_server.tls_opts
    × Offers default_flags (manager_options default_flags).metrics.tls_opts
    × ((manager_options default_flags).metrics.filter_provider ≡ (
        if (manager_options default_flags).metrics.secure_serving
        then with_authentication_and_authorization
        else no_filter))
manager_options-Offers_example = manager_options-Offers default_flags

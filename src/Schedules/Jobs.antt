-- ===== src/Schedules/Jobs.antt =====
-- The jobs of pipelines/jobs/schedules.py, with the assets that they select. Descriptions and the
-- limit of one process at a time are left out.
use process_metrics_platform.Common.{Bool, not, ◌&&◌, ◌||◌, String, List, [], ◌∷◌}
use process_metrics_platform.Schedules.Runs.{contains}
use process_metrics_platform.Schedules.Sensors.{
  Sensor, light_refresh, heavy_refresh, heavy_cfd, heavy_backlog_aging,
}

-- AssetSelection, by its operations: assets by name, groups by name, | and -.
pub data Selection : Type 0 where
  assets groups : List String → Selection
  union without : Selection → Selection → Selection

pub record Job : Type 0 where
  pub name : String
  pub selection : Selection

-- The selection takes the asset, which is in the group.
unfoldable pub selects : Selection → String → String → Bool
unfolding contains
selects (assets names) asset group = contains names asset
selects (groups names) asset group = contains names group
selects (union s t) asset group = selects s asset group || selects t asset group
selects (without s t) asset group = selects s asset group && not (selects t asset group)

unfoldable pub metrics_heavy_selection : Selection
metrics_heavy_selection = assets (
    "calculate_cumulative_flow_diagram" ∷ "calculate_backlog_growth" ∷ "calculate_aging_extended"
    ∷ "calculate_quality_metrics" ∷ "metrics_all" ∷ [])

unfoldable pub metrics_light_selection : Selection
unfolding metrics_heavy_selection
metrics_light_selection = without (groups ("metrics" ∷ [])) metrics_heavy_selection

unfoldable pub jira_sync_job : Job
jira_sync_job = record {
  name = "jira_sync_job";
  selection = union (groups ("jira_raw" ∷ "jira_clean" ∷ [])) metrics_light_selection;
}

unfoldable pub jira_raw_job : Job
jira_raw_job = record { name = "jira_raw_job"; selection = groups ("jira_raw" ∷ []) }

unfoldable pub jira_clean_job : Job
jira_clean_job = record { name = "jira_clean_job"; selection = groups ("jira_clean" ∷ []) }

unfoldable pub metrics_refresh_job : Job
metrics_refresh_job = record { name = "metrics_refresh_job"; selection = groups ("metrics" ∷ []) }

unfoldable pub metrics_light_refresh_job : Job
metrics_light_refresh_job = record {
  name = "metrics_light_refresh_job";
  selection = metrics_light_selection;
}

unfoldable pub metrics_heavy_refresh_job : Job
metrics_heavy_refresh_job = record {
  name = "metrics_heavy_refresh_job";
  selection = metrics_heavy_selection;
}

unfoldable pub metrics_heavy_cfd_job : Job
metrics_heavy_cfd_job = record {
  name = "metrics_heavy_cfd_job";
  selection = assets ("calculate_cumulative_flow_diagram" ∷ []);
}

unfoldable pub metrics_heavy_backlog_aging_job : Job
metrics_heavy_backlog_aging_job = record {
  name = "metrics_heavy_backlog_aging_job";
  selection = assets ("calculate_backlog_growth" ∷ "calculate_aging_extended" ∷ []);
}

unfoldable pub lead_time_recalc_job : Job
lead_time_recalc_job = record {
  name = "recalculate_lead_time_job";
  selection = assets ("calculate_lead_time" ∷ "metrics_lead_time" ∷ []);
}

unfoldable pub velocity_recalc_job : Job
velocity_recalc_job = record {
  name = "recalculate_velocity_job";
  selection = assets ("calculate_velocity" ∷ "metrics_velocity" ∷ []);
}

unfoldable pub throughput_recalc_job : Job
throughput_recalc_job = record {
  name = "recalculate_throughput_job";
  selection = assets ("calculate_throughput" ∷ "metrics_throughput" ∷ []);
}

unfoldable pub cfd_recalc_job : Job
cfd_recalc_job = record {
  name = "recalculate_cfd_job";
  selection = assets ("calculate_cumulative_flow_diagram" ∷ []);
}

unfoldable pub backlog_growth_recalc_job : Job
backlog_growth_recalc_job = record {
  name = "recalculate_backlog_growth_job";
  selection = assets ("calculate_backlog_growth" ∷ []);
}

unfoldable pub time_to_market_recalc_job : Job
time_to_market_recalc_job = record {
  name = "recalculate_time_to_market_job";
  selection = assets ("calculate_time_to_market" ∷ []);
}

unfoldable pub sprint_health_recalc_job : Job
sprint_health_recalc_job = record {
  name = "recalculate_sprint_health_job";
  selection = assets ("calculate_sprint_health" ∷ []);
}

unfoldable pub flow_dynamics_recalc_job : Job
flow_dynamics_recalc_job = record {
  name = "recalculate_flow_dynamics_job";
  selection = assets ("calculate_flow_dynamics" ∷ []);
}

unfoldable pub quality_recalc_job : Job
quality_recalc_job = record {
  name = "recalculate_quality_metrics_job";
  selection = assets ("calculate_quality_metrics" ∷ []);
}

unfoldable pub delivery_recalc_job : Job
delivery_recalc_job = record {
  name = "recalculate_delivery_metrics_job";
  selection = assets ("calculate_delivery_metrics" ∷ []);
}

unfoldable pub cycle_time_ext_recalc_job : Job
cycle_time_ext_recalc_job = record {
  name = "recalculate_cycle_time_extended_job";
  selection = assets ("calculate_cycle_time_extended" ∷ []);
}

unfoldable pub waste_recalc_job : Job
waste_recalc_job = record {
  name = "recalculate_waste_metrics_job";
  selection = assets ("calculate_waste_metrics" ∷ []);
}

unfoldable pub estimation_recalc_job : Job
estimation_recalc_job = record {
  name = "recalculate_estimation_metrics_job";
  selection = assets ("calculate_estimation_metrics" ∷ []);
}

unfoldable pub input_flow_recalc_job : Job
input_flow_recalc_job = record {
  name = "recalculate_input_flow_job";
  selection = assets ("calculate_input_flow" ∷ []);
}

unfoldable pub aging_extended_recalc_job : Job
aging_extended_recalc_job = record {
  name = "recalculate_aging_extended_job";
  selection = assets ("calculate_aging_extended" ∷ []);
}

unfoldable pub jira_ghost_cleanup_job : Job
jira_ghost_cleanup_job = record {
  name = "jira_ghost_cleanup_job";
  selection = assets ("jira_ghost_cleanup" ∷ []);
}

unfoldable pub jobs : List Job
jobs =
    jira_sync_job ∷ jira_raw_job ∷ jira_clean_job ∷ metrics_refresh_job ∷ metrics_light_refresh_job
    ∷ metrics_heavy_refresh_job ∷ metrics_heavy_cfd_job ∷ metrics_heavy_backlog_aging_job
    ∷ lead_time_recalc_job ∷ velocity_recalc_job ∷ throughput_recalc_job ∷ cfd_recalc_job
    ∷ backlog_growth_recalc_job ∷ time_to_market_recalc_job ∷ sprint_health_recalc_job
    ∷ flow_dynamics_recalc_job ∷ quality_recalc_job ∷ delivery_recalc_job
    ∷ cycle_time_ext_recalc_job ∷ waste_recalc_job ∷ estimation_recalc_job ∷ input_flow_recalc_job
    ∷ aging_extended_recalc_job ∷ jira_ghost_cleanup_job ∷ []

-- The job that a sensor requests a run of.
unfoldable pub job_of : Sensor → Job
job_of light_refresh = metrics_light_refresh_job
job_of heavy_refresh = metrics_heavy_refresh_job
job_of heavy_cfd = metrics_heavy_cfd_job
job_of heavy_backlog_aging = metrics_heavy_backlog_aging_job

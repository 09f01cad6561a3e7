-- ===== src/Events/Types.antt =====
-- src/prodeo/events/types.py: the names of the event types that the modelled services use.
use command_center.Base.{String}

abbrev pub system_retention_completed : String
system_retention_completed = "system.retention_completed"

abbrev pub system_app_started : String
system_app_started = "system.app_started"

abbrev pub system_app_exited : String
system_app_exited = "system.app_exited"

abbrev pub session_discovered : String
session_discovered = "session.discovered"

abbrev pub session_started : String
session_started = "session.started"

abbrev pub session_state_changed : String
session_state_changed = "session.state_changed"

abbrev pub session_updated : String
session_updated = "session.updated"

abbrev pub session_completed : String
session_completed = "session.completed"

abbrev pub session_failed : String
session_failed = "session.failed"

abbrev pub session_stopped : String
session_stopped = "session.stopped"

abbrev pub session_archived : String
session_archived = "session.archived"

abbrev pub agent_output_appended : String
agent_output_appended = "agent.output_appended"

abbrev pub agent_turn_started : String
agent_turn_started = "agent.turn_started"

abbrev pub agent_turn_completed : String
agent_turn_completed = "agent.turn_completed"

abbrev pub tool_started : String
tool_started = "tool.started"

abbrev pub tool_finished : String
tool_finished = "tool.finished"

abbrev pub tool_failed : String
tool_failed = "tool.failed"

abbrev pub interaction_requested : String
interaction_requested = "interaction.requested"

abbrev pub interaction_answered : String
interaction_answered = "interaction.answered"

abbrev pub interaction_timed_out : String
interaction_timed_out = "interaction.timed_out"

abbrev pub interaction_cancelled : String
interaction_cancelled = "interaction.cancelled"

abbrev pub notification_sent : String
notification_sent = "notification.sent"

abbrev pub notification_failed : String
notification_failed = "notification.failed"

abbrev pub notification_suppressed : String
notification_suppressed = "notification.suppressed"

abbrev pub summary_generated : String
summary_generated = "summary.generated"

abbrev pub schedule_created : String
schedule_created = "schedule.created"

abbrev pub schedule_triggered : String
schedule_triggered = "schedule.triggered"

abbrev pub schedule_deleted : String
schedule_deleted = "schedule.deleted"

abbrev pub machine_added : String
machine_added = "machine.added"

abbrev pub machine_renamed : String
machine_renamed = "machine.renamed"

abbrev pub machine_removed : String
machine_removed = "machine.removed"

abbrev pub adapter_error : String
adapter_error = "adapter.error"

abbrev pub adapter_loaded : String
adapter_loaded = "adapter.loaded"

abbrev pub adapter_unloaded : String
adapter_unloaded = "adapter.unloaded"

abbrev pub adapter_discovery_completed : String
adapter_discovery_completed = "adapter.discovery_completed"

-- ===== src/Lib.antt =====
-- switch-configurator: network switches are brought to the state that configuration files describe.
--
-- A configuration is read from one file, or from several by priority; port ranges are expanded, secrets
-- read, VLAN names resolved and references checked. The state of a switch is read by its vendor's
-- driver, compared with the wanted configuration, and the difference is carried out.
--
-- What is modelled, with paths below switch-configurator/src/:
--
-- - Models: models.rs, config.rs (`Settings`) and the types of validation/mod.rs. Models.Hardware has the
--   tables of the models, Models.Hardware.Ports what their ports can do, Models.Network VLANs, ports and
--   mirrors, Models.Snmp the SNMP part, Models.SwitchConfig the whole configuration of a switch, and
--   Models.State the state that is read and the difference.
-- - SnmpReads: snmp_reads.rs, the community that the service itself reads with.
-- - Diff: diff/mod.rs. `compute_diff` calls one function for each kind of entry; each has a module
--   (Diff.Vlans, Diff.Ports, Diff.Mirrors, Diff.Snmp) that takes the difference so far and returns it
--   with its own part filled in. Diff.Keyed has the loops that they share: both lists go into a hash
--   table by key, and keys are visited. Diff.Migration is `find_ports_to_migrate`. Diff.Apply is no code:
--   it is a switch that carries a difference out to the letter, which Diff.Converges measures
--   `compute_diff` against.
-- - Config: config.rs. Config.PortRange expands port ids, Config.Names resolves VLAN names,
--   Config.References checks references, Config.Snmp has the structural SNMP checks of secrets.rs and
--   allowed_hosts.rs, Config.Overlay is `validate_overlay_config`, Config.Merge merges the sources of one
--   switch (its tables in Config.Merge.Table), and Config.Validate is `validate_switch_config` and the
--   checks on a merged switch. Config.Load reads the files of a configuration, groups what they say by
--   switch and merges each. Config.Result has the errors, which keep what a message names.
-- - Secrets: secrets.rs, `resolve_snmp_secrets` and the registry of values to mask.
-- - SessionPool: session_pool.rs, sessions that are kept open between operations. SessionPool.Steps has the
--   operations and the timers as the steps of one system.
-- - Status: status.rs, what the service knows of its switches. Status.Gates has the operations that take a
--   switch's turn and give it back, over any semaphore that keeps its waiting tasks in line. Status.Turns has
--   the tasks and their steps; Status.Order follows one task through the line.
-- - AllowedHosts: allowed_hosts.rs, `resolve_auto_hosts`; the address that a switch sees the service at
--   is a parameter. AllowedHosts.Fortios has `host_to_fortios` and `host_from_fortios`. JumpHosts: ssh/jump_host_parser.rs, whose variable `USER` is a parameter.
-- - Vendors: vendors/aruba.rs, the commands that the driver of ArubaOS switches generates (Vendors.Aruba
--   for one command and its line, Vendors.Aruba.Generate, Vendors.Aruba.Preview) and sends
--   (Vendors.Aruba.Apply). Levels, Tags, Cleared and Traps of Vendors.Aruba have, beside the theorems, how
--   the switch's command line obeys these commands, as far as the theorems need it.
-- - Tests: a small switch with sources, and the theorems applied to it.
-- - Prelude: Rust's strings, decimal numbers, hash tables and stable sorting, with their lemmas.
--
-- How the code is modelled:
--
-- - Numbers are natural numbers, and the bits of a netmask are those of 32. The code compares and prints
--   the others and counts with some; where text is read into one, the bound of its type is checked.
--   Text is the list of its code points.
-- - A function that changes its argument in place returns the new value; `?` is the chain of `Result`.
--   An error ends the function, and what was changed until then is dropped.
-- - The order in which a hash table or a hash set is visited is a parameter, `HashOrder`: any order with
--   each element as often as it is there. Nothing is proved for one order only.
-- - Outside code is a parameter: what the regular expression for ranges finds, what the attributes of the
--   validator crate accept, what a path reads as, the address towards a switch, the variable `USER`, and
--   whether a text is an IPv6 address.
-- - Printing a number takes fuel, one more than the number, which is more than its digits; taking a prefix
--   off a text takes its length, since the prefix is not empty.
--
-- Not modelled: what the drivers read from a switch, the drivers of the other vendors, connections, the
-- SNMP client, the HTTP interface, the file watcher and the user interface, which read and write; the
-- reading of YAML; log lines and the wording of messages.

mod Prelude
pub mod AllowedHosts
pub mod JumpHosts
pub mod Models
pub mod SnmpReads
pub mod Diff
pub mod Config
pub mod Secrets
pub mod SessionPool
pub mod Status
pub mod Vendors
pub mod Tests

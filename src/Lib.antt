-- ===== src/Lib.antt =====
-- klldap: models of the server's core, in Rust under crates/, with their theorems.
--
-- The program keeps users, groups and a schema of attributes in a database and answers LDAP, GraphQL
-- and HTTP. A request over LDAP names its subject by a distinguished name and its wish by a filter; the
-- front end in crates/ldap turns both into the types of crates/domain and crates/domain-handlers, and
-- asks the back end through crates/access-control, which lends a handler by the permissions of the
-- bound user.
--
-- - Base, Text: shared names, lists, options and results; strings as lists of code points.
-- - Auth: crates/auth/src/access_control.rs and the user names of crates/auth/src/lib.rs.
-- - Schema: crates/schema/src/schema.rs, attribute lists and look-up by name or alias.
-- - Domain, Domain.Deserialize: crates/domain/src/types.rs, requests.rs and deserialize.rs.
-- - Handlers: crates/domain-handlers/src/handler.rs, the request filters; Handlers.Meaning says what
--   they mean, given the truth of the leaves.
-- - Access: crates/access-control/src/lib.rs.
-- - Ldap.Ou, Ldap.Dn: crates/ldap/src/dn.rs. The match of
--   get_user_or_group_id_from_distinguished_name is classify_parts, after the parse.
-- - Ldap.Fields: crates/ldap/src/schema/manager.rs. The hash map is an association list, the latest
--   insertion first.
-- - Ldap.Simplify, Ldap.Filters: crates/ldap/src/search/filters.rs. Ldap.Simplify is the pipeline that
--   the source writes out for the And and the Or of users and of groups.
-- - Ldap.Scope: crates/ldap/src/search/scope.rs.
-- - Ldap.World: what crates/ldap asks of the back end, of OPAQUE and of Kerberos, as functions on the
--   state of everything outside; an operation answers a value, an error or a panic.
-- - Ldap.Password, Ldap.Delete, Ldap.Compare: crates/ldap/src/password.rs, delete.rs and compare.rs.
-- - Ldap.Modify: crates/ldap/src/modify.rs. Ldap.Modify.Profile is the match on the operation and the
--   attribute in handle_modify_change, up to the request for the back end; apply_change is the body of
--   the loop in handle_modify_request.
-- - Ldap.Create: crates/ldap/src/create.rs. Ldap.Create.Request is what leads up to the back end's call.
-- - Ldap.Wildcards: expand_attribute_wildcards of crates/ldap/src/schema/manager.rs. Its loop over the
--   schema is collect_standard and collect_operational, one for each of the two lists that it fills.
-- - Ldap.Attributes: crates/ldap/src/attributes.rs: the unit (here), the values of each attribute (Values)
--   and the entries of a search (Entry).
-- - Ldap.Session: crates/ldap/src/handler.rs, for all messages but those that search, compare and ask who
--   one is. handle_ldap_message is the step of a session; Ldap.Session.Reachable is what steps reach.
-- - Sql.Filters: get_user_filter_expr and get_group_filter_expr of crates/sql-backend-handler, into
--   conditions as data; Sql.Filters.Ldap joins them with the conversions of Ldap.Filters.
-- - Sql.Values: the bytes that attribute values are stored as, in crates/sql-backend-handler, and how
--   crates/domain-model/src/model/deserialize.rs reads them.
-- - Sql.Posix: the POSIX numbers of crates/sql-backend-handler: the search for a free one, the checks,
--   and the attributes of a new user or group.
-- - Sql.Reassign: the assignments of all POSIX attributes anew, there, on rows.
--
-- A vector inside a recursive enum is a second data type in the mutual block. Functions are structural,
-- but for the search of a number, whose fuel is two more than the distance between the ends of the range:
-- one step for each number and one to see that the range is over. An i64 is a value of ℤ; adding one to
-- the largest wraps, as in the release build, which has no overflow checks. If the range of a search ends
-- there and all of it is taken, the loop does not end, which is the end of the fuel.
--
-- Parameters: the parsers of numbers, dates, base64 and UUIDs and the image conversion (Parsers), the
-- Debug printers (Printers), the lower-casing of the standard library (to_lowercase), Uuid::new_v5
-- (new_v5), the handler behind the access control with the conversions of text and bytes (World),
-- serde_json and bincode (Codec), the conversions of a search entry (Conversions) and what the database
-- answers about numbers (taken) and rows (row). Only the round trip of stored values assumes something of
-- them (Sql.Values.Laws.Lawful): that JSON, decimal numbers and UTF-8 read what they wrote.
--
-- Not modelled: logging; the tables of the database, its migrations and its evaluation of comparisons,
-- with the missing values that are neither true nor false; OPAQUE, Kerberos and the HTTP and GraphQL
-- servers; the web front end and the command-line tools; and, in crates/ldap, do_search,
-- with the entries of the root, of the sub-schema and of units that it adds, and so the messages of a
-- session that search, compare and ask who one is (WHOAMI).
pub mod Base
pub mod Text
pub mod Auth
pub mod Schema
pub mod Domain
pub mod Handlers
pub mod Access
pub mod Ldap
pub mod Sql

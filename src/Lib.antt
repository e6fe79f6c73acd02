-- ===== src/Lib.antt =====
-- Verification of the terraform-provider-netgear-plus repository: the wire codec of NETGEAR's
-- NSDP protocol, the parser of switch backups, and the VLAN state with the plan that converges
-- a switch.
--
-- Wire (internal/nsdp/wire.go, errors.go): packets are lists of bytes as numbers below 256;
-- EncodeHeader, EncodeGetRequest, encodeSetTLVs and EncodeReply are the functions encode_*,
-- WalkTLVs is walk_tlvs, ParseReply is parse_reply. An index past the end of a slice, where
-- the source panics, is none.
-- Cfg (internal/cfg/config.go): ParseConfig is parse_config, Checksum is checksum, and the
-- methods of Config are functions of the same names.
-- Model (internal/model/vlan_state.go): a map is an association list with distinct keys;
-- Normalize, Validate and Equal are normalize, validate and equal_states.
-- The module Plan (internal/model/vlan_plan.go): Plan is plan and Run is run. VLANApplier is a
-- record of state transformers, and Plan/Switch is the interface that says what a switch
-- behind it does.
-- Token (internal/nsdp/token.go): NtgrRock, V1LoginToken, V2LoginToken and loginToken are
-- ntgr_rock, v1_login_token, v2_login_token and login_token, with the two requests of wire.go
-- that carry them.
-- Entries (internal/nsdp/vlan.go, methods.go): PortBitmap, PortsFromBitmap, decode8021QEntry
-- and the payloads of the port, VLAN, mirror, IGMP and boolean SETs; what is passed to SetRaw
-- is the result.
-- Tftp (internal/fastpath/tftp.go): TFTPGet is get and TFTPPut is put, over the list of what
-- the reads yield and the list of the packets written.
-- Client (internal/nsdp/client.go): an operation is a function of the session, which holds the
-- counter, the cached login, the reads to come and the requests written. GetAttr, GetAttrs,
-- Login, refreshToken, SetSystemName and SetRaw are get_attr, get_attrs, login, refresh_token,
-- set_system_name and set_raw, and readReply is read_reply. A read yields a datagram, the
-- deadline or another error; which writes fail is a parameter.
-- Textcfg (internal/fastpath/textcfg.go, textedit.go): a file is a byte string and its lines.
-- ParseTextConfig is parse_text_config, with walk_sections, pair_section_exits and
-- compute_section_spans. TextConfigEditor is Editor, and ReplaceSectionBody, InsertSection,
-- DeleteSection and Render are the functions of those names; an operation returns its error or
-- none, and the editor as it leaves it. Textcfg/Exits finds the exit of a block by a count of
-- open blocks, and Textcfg/Editor/Blocks says what an edit does to the lines, both without the
-- functions of the source.
-- Dump (internal/nsdp/dump.go, identity.go, and the reads of vlan.go and methods.go):
-- DecodeTLV is decode_tlv, whose none is a nil Decoded; GetBlock, Dump and GetIdentity are
-- get_block, dump and get_identity, operations of the client. The other typed SETs are in
-- Entries/Methods.
-- Grammar (internal/client/gs108tv2/codec.go): parseVlanDeclares, parseVlanMembership and
-- parseVlanPVID read the words of a line, vlanDeclareLine, vlanMembershipLine and vlanPVIDLine
-- print one, and generateVlanDatabaseBody prints the body of the VLAN section;
-- validateRenderable is validate_renderable. decimal has the number itself as fuel, which is
-- more than its digits.
-- Settings (internal/client/gs108tv2/portcodec.go, grammar.go): PortSettings with
-- validatePortSettings, normalizePortSettings and equalPortSettings.
-- Codec (internal/client/gs108tv2/codec.go, portcodec.go): decodeTextConfig is
-- decode_text_config, over the sections of a file as a function of their label: Codec/Scan
-- reads the lines, Codec/Assemble builds the state, and Codec/Render holds captureForeign,
-- renderVLANState and renderPortSettings. The other files of Codec compare what is rendered
-- with what is decoded, at the level of section bodies: Lines, Rendered, Kept and Sections
-- read the written lines, Realized, Written, Members and Entered follow the memberships, and
-- Inferred, OnlyDefault and Recovered the VLAN 1 and access ports that are inferred.
-- Driver (internal/client/gs108tv2/driver.go, read.go, apply.go): the driver's state is its
-- session, the number of calls and the files sent. Each call of the web session, the context
-- or the clock is answered by the environment under its number. The wait loop of
-- waitTransientAndVerify has as many rounds as the window has milliseconds, and one more.
-- Base holds the shared tests, lists, maps as association lists, bytes, texts and results.
-- Each component has its theorems in child modules, and its witnesses and tests in its module
-- Tests.
--
-- Fuel: walk takes the length of the packet and parse_sections the length of the payload; each
-- round consumes at least four bytes, and the theorems show that no walk of such fuel is cut
-- short.
-- put_blocks takes a round for each block of the file and one for the shorter last block.
-- Not modelled: sockets, deadlines, HTTP, the Terraform framework, texts of errors and logs.
pub mod Base
pub mod Wire
pub mod Cfg
pub mod Model
pub mod Plan
pub mod Token
pub mod Entries
pub mod Tftp
pub mod Client
pub mod Textcfg
pub mod Dump
pub mod Grammar
pub mod Settings
pub mod Codec
pub mod Driver

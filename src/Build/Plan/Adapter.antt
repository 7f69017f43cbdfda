-- ===== src/Build/Plan/Adapter.antt =====
-- `ADAPTER_SOURCE` of src/gz_build_manager.cpp, the Zig code that a script is compiled with.
use gzscript.Base.{List, [], ◌∷◌, ◌++◌, Bytes, codes}

abbrev adapter_lines : List Bytes
adapter_lines =
    codes "const std = @import(\"std\");"
    ∷ codes "const gd = @import(\"godot\");"
    ∷ codes "const Script = @import(\"user_script\");"
    ∷ codes "const Adapter = gd.ScriptAdapter(Script);"
    ∷ codes
        "export fn gzscript_script_init(api: *const gd.abi.EngineApi, out: **const gd.abi.ScriptDescriptor) callconv(.c) gd.abi.Status {"
    ∷ codes "    return gd.initialize(api, out, &Adapter.descriptor);"
    ∷ codes "}"
    ∷ codes "pub const std_options = std.Options{"
    ∷ codes "    .logFn = log,"
    ∷ codes "};"
    ∷ codes "pub fn log("
    ∷ codes "    comptime message_level: std.log.Level,"
    ∷ codes "    comptime scope: @EnumLiteral(),"
    ∷ codes "    comptime format: []const u8,"
    ∷ codes "    args: anytype,"
    ∷ codes ") void {"
    ∷ codes "    const color = switch (message_level) {"
    ∷ codes "        .err => \"red\","
    ∷ codes "        .warn => \"gold\","
    ∷ codes "        .info => \"green\","
    ∷ codes "        .debug => \"cyan\","
    ∷ codes "    };"
    ∷ codes
        "    const prefix = \"[color=\" ++ color ++ \"]\" ++ \"[\" ++ @tagName(scope) ++ \"]\" ++ \"[/color] \";"
    ∷ codes "    gd.log.info(prefix ++ format, args);"
    ∷ codes "}"
    ∷ []

unfoldable lines_text : List Bytes → Bytes
lines_text [] = []
lines_text (line ∷ rest) = line ++ 10 ∷ lines_text rest

unfoldable pub adapter_source : Bytes
unfolding lines_text
adapter_source = lines_text adapter_lines
